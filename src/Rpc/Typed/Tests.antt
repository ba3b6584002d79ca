-- ===== src/Rpc/Typed/Tests.antt =====
-- A typed call of rpc/rpc.h with a number and a string, as those of the lock protocol.
use simple_distributed_files.Prelude.{ℕ, ◌+◌, ◌≡◌, refl, [], ◌∷◌, some, arith, Bytes, replicate}
use simple_distributed_files.Rpc.Marshall.{ReqHeader, Marshall, put_ullong, put_string}
use simple_distributed_files.Rpc.Unmarshall.{get_ullong, get_string}
use simple_distributed_files.Rpc.RoundTrip.{
  ullong_bytes, uint_bytes, string_bytes, put_ullong-Writes, get_ullong-Reads, put_string-Writes,
  get_string-Reads,
}
use simple_distributed_files.Rpc.Typed.{
  Wire, IsFaithful, both, both-IsFaithful, cstr, call_request, answer, take_reply,
}
use simple_distributed_files.Rpc.Typed.EndToEnd.{typed_call}

abbrev ullong_wire : Wire ℕ
ullong_wire = record { put = put_ullong; get = get_ullong; bytes = ullong_bytes }

abbrev string_wire : Wire Bytes
string_wire = record { put = put_string; get = get_string []; bytes = string_bytes }

five-IsFaithful : IsFaithful ullong_wire 5
five-IsFaithful = record { writes = put_ullong-Writes 5; reads = get_ullong-Reads 5 (omega arith) }

name-IsFaithful : IsFaithful string_wire (97 ∷ 98 ∷ [])
name-IsFaithful = record {
  writes = put_string-Writes (97 ∷ 98 ∷ []);
  reads = get_string-Reads [] (97 ∷ 98 ∷ []);
}

-- A method that counts its calls.
abbrev counted : ℕ × Bytes → ℕ → ℕ × ℕ × ℕ
counted (lid, id) n = (3, lid, n + 1)

abbrev header : ReqHeader
header = record { xid = 1; proc = 28673; clt_nonce = 9; srv_nonce = 4; xid_rep = 0 }

typed_call_example :
    (rep : Marshall) × (answer
        (both ullong_wire string_wire)
        ullong_wire
        counted
        (cstr
          (0 ∷ 0 ∷ 0 ∷ 0 ∷ [])
          []
          (call_request (both ullong_wire string_wire) header (5, 97 ∷ 98 ∷ [])))
        0
      ≡ some (rep, 1))
    × (take_reply ullong_wire (cstr (0 ∷ 0 ∷ 0 ∷ 32 ∷ []) (replicate 12 7) rep) ≡ some (3, some 5))
unfolding ullong_bytes uint_bytes string_bytes
typed_call_example =
    typed_call (ℕ × Bytes) ℕ ℕ (both ullong_wire string_wire) ullong_wire counted header
      (5, 97 ∷ 98 ∷ []) 0 (0 ∷ 0 ∷ 0 ∷ 0 ∷ []) (0 ∷ 0 ∷ 0 ∷ 32 ∷ []) (replicate 12 7)
      (record {
        xid = omega arith;
        proc = omega arith;
        clt_nonce = omega arith;
        srv_nonce = omega arith;
        xid_rep = omega arith;
      })
      (both-IsFaithful ullong_wire string_wire 5 (97 ∷ 98 ∷ []) five-IsFaithful name-IsFaithful)
      five-IsFaithful (omega arith) (omega arith) (omega arith) refl refl refl
