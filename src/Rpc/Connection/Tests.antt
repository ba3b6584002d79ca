-- ===== src/Rpc/Connection/Tests.antt =====
-- The connection of rpc/connection.cc at concrete PDUs.
use simple_distributed_files.Prelude.{
  ◌≡◌, refl, true, false, List, [], ◌∷◌, ◌++◌, some, none, arith, Bytes,
}
use simple_distributed_files.Rpc.RoundTrip.{uint_bytes}
use simple_distributed_files.Rpc.Connection.{
  got, failed, wrote, Connection, charbuf_new, stamp, write_rest, writepdu_at, writepdu, send_look,
  send_end, write_cb, read_cb, readpdu, read_size, read_rest, offer, size_passes, ntohl,
}
use simple_distributed_files.Rpc.Connection.Framing.{
  Link, link_new, starts, writes, reads, Steps, done, next,
}
use simple_distributed_files.Rpc.Connection.Delivery.{frames_in_order, all_arrive}

abbrev pdu : Bytes
pdu = 0 ∷ 0 ∷ 0 ∷ 0 ∷ 42 ∷ []

abbrev framed : Bytes
framed = 0 ∷ 0 ∷ 0 ∷ 5 ∷ 42 ∷ []

abbrev part_written : Connection
part_written = record {
  dead = false;
  wpdu = record { buf = some framed; sz = 5; solong = some 3 };
  rpdu = charbuf_new;
  waiters = 0;
  refno = 1;
  created = (0, 0);
}

abbrev all_written : Connection
all_written = record part_written { wpdu = record { buf = some framed; sz = 5; solong = some 5 } }

-- The kernel takes three bytes and then two, and gives them to the reader as four and one.
abbrev first_part : Link
first_part = record (link_new (0, 0) (0, 0)) {
  writer = part_written;
  wire = 0 ∷ 0 ∷ 0 ∷ [];
  sent = framed ∷ [];
}

abbrev on_wire : Link
on_wire = record first_part { writer = all_written; wire = framed }

abbrev arrived : Link
arrived = record on_wire { wire = []; delivered = framed ∷ [] }

run : Steps (link_new (0, 0) (0, 0)) arrived
unfolding send_look writepdu writepdu_at write_rest stamp uint_bytes write_cb read_cb readpdu
    read_size read_rest offer size_passes ntohl
run =
    next (link_new (0, 0) (0, 0)) first_part arrived
      (starts (link_new (0, 0) (0, 0)) pdu (0 ∷ 0 ∷ 0 ∷ []) (wrote 3) part_written (omega arith)
        (omega arith) (omega arith) refl)
      (next first_part on_wire arrived
        (writes first_part (5 ∷ 42 ∷ []) (wrote 2) all_written (omega arith) refl)
        (next on_wire arrived arrived
          (reads on_wire (42 ∷ []) [] (got (0 ∷ 0 ∷ 0 ∷ 5 ∷ [])) (got (42 ∷ [])) true
            (record all_written { wpdu = charbuf_new }) (some framed)
            (refl, omega arith, omega arith) (refl, omega arith, omega arith) refl)
          (done arrived)))

frames_in_order_example : (pending : List Bytes) × (arrived.sent ≡ arrived.delivered ++ pending)
frames_in_order_example = frames_in_order (0, 0) (0, 0) arrived run

all_arrive_example : arrived.delivered ≡ arrived.sent
unfolding send_end
all_arrive_example =
    all_arrive (0, 0) (0, 0) arrived (record all_written { wpdu = charbuf_new }) run refl refl refl
      refl

-- An error of the first `read` that is EAGAIN ends the process.
again_aborts : read_cb (failed true) (failed true) true part_written ≡ none
unfolding read_cb readpdu read_size
again_aborts = refl
