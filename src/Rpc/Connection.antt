-- ===== src/Rpc/Connection.antt =====
-- The connections of rpc/connection.h and rpc/connection.cc: how a PDU is cut into what the socket
-- takes, put together again, and offered to the channel's manager. What the kernel answers to
-- `read` and `write`, and what the manager answers to `got_pdu`, is an argument. `none` is a
-- process that a VERIFY ends. A `solong` of -1 is `none`.
use simple_distributed_files.Prelude.{
  ℕ, ◌+◌, ◌-◌, ◌*◌, ◌<◌, Bool, true, false, not, ◌&&◌, ◌||◌, List, [], ◌∷◌, ◌++◌, Option, none,
  some, Bytes, ltb, leb, ◌==◌, if◌then◌else◌, length, take, drop,
}
use simple_distributed_files.Rpc.RoundTrip.{uint_bytes}
pub mod Framing
mod Reading
mod Receiving
mod Writing
pub mod Delivery
mod Tests

-- What `read` returns: some bytes, the end of the stream, or an error. With the last two goes
-- whether `errno` is EAGAIN, which at the end of the stream is left over from an earlier call.
pub data Read : Type 0 where
  got : Bytes → Read
  ended failed : Bool → Read

-- What `write` returns: how many bytes it took, or an error and whether that is EAGAIN.
pub data Write : Type 0 where
  wrote : ℕ → Write
  refused : Bool → Write

pub record Charbuf : Type 0 where
  pub buf : Option Bytes
  pub sz : ℕ
  pub solong : Option ℕ

abbrev pub charbuf_new : Charbuf
charbuf_new = record { buf = none; sz = 0; solong = some 0 }

pub record Connection : Type 0 where
  pub dead : Bool
  pub wpdu : Charbuf
  pub rpdu : Charbuf
  pub waiters : ℕ
  pub refno : ℕ
  pub created : ℕ × ℕ

abbrev pub connection_new : ℕ × ℕ → Connection
connection_new time = record {
  dead = false;
  wpdu = charbuf_new;
  rpdu = charbuf_new;
  waiters = 0;
  refno = 1;
  created = time;
}

-- The size in the network's order over the first four bytes.
unfoldable pub stamp : ℕ → Bytes → Bytes
stamp sz b = uint_bytes sz ++ drop 4 b

-- `writepdu` past its two tests, with what it hands to the kernel.
unfoldable pub write_rest : Write → Charbuf → Bytes → ℕ → Bool × Charbuf × Bytes
write_rest (wrote n) p b k =
    (true, record p { buf = some b; solong = some (k + n) }, take n (drop k b))
write_rest (refused true) p b k = (true, record p { buf = some b }, [])
write_rest (refused false) p b k = (false, record p { buf = some b; sz = 0; solong = none }, [])

unfoldable pub writepdu_at : Write → Charbuf → Bytes → ℕ → Bool × Charbuf × Bytes
writepdu_at r p b k =
    if k == p.sz then (true, p, []) else write_rest r p (if k == 0 then stamp p.sz b else b) k

-- The buffer is there whenever the code comes here with something to write.
unfoldable pub writepdu : Write → Charbuf → Option (Bool × Charbuf × Bytes)
writepdu r p = elim p.solong [
  | none ↦ none
  | some k ↦ elim p.buf [
    | none ↦ if k == p.sz then some (true, p, []) else none
    | some b ↦ some (writepdu_at r p b k)
  ]
]

abbrev pub has_buf : Charbuf → Bool
has_buf p = elim p.buf [ none ↦ false | some b ↦ true ]

-- `solong == sz`, with sizes that are never negative.
abbrev pub all_done : Charbuf → Bool
all_done p = elim p.solong [ none ↦ false | some k ↦ k == p.sz ]

-- `solong < sz`, where a `solong` of -1 is less than any size.
abbrev pub some_left : Charbuf → Bool
some_left p = elim p.solong [ none ↦ true | some k ↦ ltb k p.sz ]

-- `solong >= 0 && solong < sz`.
abbrev pub under_way : Charbuf → Bool
under_way p = elim p.solong [ none ↦ false | some k ↦ ltb k p.sz ]

-- A thread comes into `send`.
unfoldable pub send_enter : Connection → Connection
send_enter c = record c { waiters = c.waiters + 1 }

-- What a look of a thread in `send` ends with: it waits for the buffer, it returns false, or the
-- PDU is in the buffer and some bytes went out.
pub data Sent : Type 0 where
  waits : Sent
  returns_false : Connection → Sent
  started : Connection → Bytes → Sent

abbrev pub send_started : Connection → Option (Bool × Charbuf × Bytes) → Option Sent
send_started c none = none
send_started c (some (ok, p, out)) =
    some (started (record c { wpdu = p; dead = not ok; waiters = c.waiters - 1 }) out)

-- `send` from its first wait to its second. A shutdown of the lossy test shows in what the kernel
-- answers.
unfoldable pub send_look : Bytes → ℕ → Write → Connection → Option Sent
send_look b sz r c =
    if not c.dead && has_buf c.wpdu
    then some waits
    else if c.dead
    then some (returns_false (record c { waiters = c.waiters - 1 }))
    else send_started c (writepdu r (record { buf = some b; sz = sz; solong = some 0 }))

-- `send` from its second wait on, with what it returns; `none` while it waits.
unfoldable pub send_end : Connection → Option (Connection × Bool)
send_end c =
    if not c.dead && under_way c.wpdu
    then none
    else some (record c { wpdu = charbuf_new }, not c.dead && all_done c.wpdu)

abbrev pub written : Connection → Option (Bool × Charbuf × Bytes) → Option (Connection × Bytes)
written c none = none
written c (some (ok, p, out)) = some (record c { wpdu = p; dead = not ok }, out)

-- `write_cb`, with what goes out.
unfoldable pub write_cb : Write → Connection → Option (Connection × Bytes)
write_cb r c =
    if c.dead then none else if c.wpdu.sz == 0 then some (c, []) else written c (writepdu r c.wpdu)

abbrev pub max_pdu : ℕ
max_pdu = 10 * 1048576

-- The size of a PDU whose header says `sz`: no more than the greatest one, or negative as an int.
unfoldable pub size_passes : ℕ → Bool
size_passes sz = leb sz max_pdu || leb 2147483648 sz

-- `ntohl` of four bytes.
unfoldable pub ntohl : Bytes → ℕ
ntohl (a ∷ b ∷ c ∷ d ∷ []) = a * 16777216 + b * 65536 + c * 256 + d
ntohl _ = 0

-- The first half of `readpdu`, when no PDU is under way. A buffer that is there ends the process.
unfoldable pub read_size : Read → Charbuf → Option (Bool × Charbuf)
read_size (ended again) p = some (false, p)
read_size (failed again) p = if again then none else some (false, p)
read_size (got bs) p =
    if not (length bs == 4) || not (size_passes (ntohl bs))
    then some (false, p)
    else if has_buf p
    then none
    else some (true, record { buf = some bs; sz = ntohl bs; solong = some 4 })

-- The second half: the bytes that `read` gives go behind those that are there.
unfoldable pub read_rest : Read → Charbuf → Bool × Charbuf
read_rest (got bs) p = (
  true,
  record p {
    buf = elim p.buf [ none ↦ none | some b ↦ some (b ++ bs) ];
    solong = elim p.solong [ none ↦ none | some k ↦ some (k + length bs) ];
  },
)
read_rest (ended again) p = if again then (true, p) else (false, charbuf_new)
read_rest (failed again) p = if again then (true, p) else (false, charbuf_new)

abbrev pub then_rest : Read → Option (Bool × Charbuf) → Option (Bool × Charbuf)
then_rest r none = none
then_rest r (some (ok, p)) = if ok then some (read_rest r p) else some (false, p)

-- `readpdu`, with the answers to its two calls of `read`; the first is made for a new PDU only.
unfoldable pub readpdu : Read → Read → Charbuf → Option (Bool × Charbuf)
readpdu first second p =
    if p.sz == 0 then then_rest second (read_size first p) else some (read_rest second p)

-- The last lines of `read_cb`: a PDU that is complete is offered, and forgotten once it is taken.
unfoldable pub offer : Bool → Connection → Connection × Option Bytes
offer taken c =
    if has_buf c.rpdu && all_done c.rpdu && taken
    then (record c { rpdu = charbuf_new }, c.rpdu.buf)
    else (c, none)

abbrev pub read_done :
    Bool → Connection → Option (Bool × Charbuf) → Option (Connection × Option Bytes)
read_done taken c none = none
read_done taken c (some (ok, p)) = some (offer taken (record c { rpdu = p; dead = not ok }))

-- `read_cb`, with the PDU that the manager took.
unfoldable pub read_cb : Read → Read → Bool → Connection → Option (Connection × Option Bytes)
read_cb first second taken c =
    if c.dead
    then some (c, none)
    else if not (has_buf c.rpdu) || some_left c.rpdu
    then read_done taken c (readpdu first second c.rpdu)
    else some (offer taken c)

unfoldable pub closeconn : Connection → Connection
closeconn c = record c { dead = true }
