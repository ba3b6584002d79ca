-- ===== src/Rpc/Typed.antt =====
-- Typed calls of rpc/rpc.h: `rpcc::call` and `call_m` at the client, and the handlers that
-- `rpcs::reg` makes of methods at the server. Several arguments are a pair of arguments.
use simple_distributed_files.Prelude.{
  ℕ, ◌+◌, ◌-◌, ◌<◌, ◌≤◌, ◌≡◌, refl, sym, ap, ◌∙◌, subst, Bool, true, false, not, List, [], ◌∷◌,
  ◌++◌, append_assoc, append-nil, Option, none, some, arith, Bytes, ltb, leb, ◌==◌, if◌then◌else◌,
  length, take, drop, length-append, drop-append, Bool-cases,
}
use simple_distributed_files.Rpc.Marshall.{
  ReqHeader, ReplyHeader, Marshall, marshall_new, rpc_header_sz, word, pack_req_header,
  pack_reply_header,
}
use simple_distributed_files.Rpc.Unmarshall.{
  Unmarshall, Reader, ◌>>=◌, pure, u32, take_in, okdone, unpack_req_header, unpack_reply_header,
  req_words, reply_words, get_uint,
}
use simple_distributed_files.Rpc.RoundTrip.{
  uint_bytes, get_uint-Reads, Reads, Writes, Reads-bind, Reads-last, Writes-then,
}
pub mod Headers
pub mod EndToEnd
mod Tests

-- The operators `<<` and `>>` of a type, with the bytes of a value.
pub record Wire (A : Type 0) : Type 0 where
  pub put : A → Marshall → Marshall
  pub get : Reader A
  pub bytes : A → Bytes

-- What is written of this value is read back.
pub record IsFaithful {A : Type 0} (w : Wire A) (a : A) : Type 0 where
  pub writes : Writes (w.put a) (w.bytes a)
  pub reads : Reads w.get (w.bytes a) a

-- Two arguments, one after the other.
abbrev pub both : {A B : Type 0} → Wire A → Wire B → Wire (A × B)
both v w = record {
  put = λ ab m. w.put ab.1 (v.put ab.0 m);
  get = (do a ← v.get; b ← w.get; pure (a, b));
  bytes = λ ab. v.bytes ab.0 ++ w.bytes ab.1;
}

pub both-IsFaithful :
    {A B : Type 0} (v : Wire A) (w : Wire B) (a : A) (b : B)
    → IsFaithful v a
    → IsFaithful w b
    → IsFaithful (both v w) (a, b)
both-IsFaithful v w a b f g = record {
  writes = Writes-then (v.put a) (w.put b) (v.bytes a) (w.bytes b) f.writes g.writes;
  reads =
      Reads-bind v.get (λ x. do y ← w.get; pure (x, y)) (v.bytes a) (w.bytes b) a (a, b) f.reads
        (Reads-last w.get (λ y. (a, y)) (w.bytes b) b (a, b) refl g.reads);
}

-- The buffer of a message: the word of the channel, the header with what is not used of it, and
-- the content.
abbrev pub cstr : Bytes → Bytes → Marshall → Bytes
cstr channel unused m = channel ++ (m.header ++ (unused ++ m.content))

-- -2, as an `int`.
abbrev pub unmarshal_args_failure : ℕ
unmarshal_args_failure = 4294967294

-- The request that `call` gives to `call1`.
unfoldable pub call_request : {A : Type 0} → Wire A → ReqHeader → A → Marshall
call_request w h a = pack_req_header h (w.put a marshall_new)

module _ {A R S : Type 0} (wa : Wire A) (wr : Wire R) (meth : A → S → ℕ × R × S) where
  -- `fn` once the arguments are read.
  unfoldable pub fn_with : Marshall → S → Option (A × Unmarshall) → Option (ℕ × Marshall × S)
  fn_with ret s none = none
  fn_with ret s (some (a, u)) =
      if not (okdone u)
      then some (unmarshal_args_failure, ret, s)
      else (let (b, r, s') = meth a s in some (b, wr.put r ret, s'))

  -- `fn` of the handler of a method, which may change the server's state.
  unfoldable pub fn : Unmarshall → Marshall → S → Option (ℕ × Marshall × S)
  fn args ret s = fn_with ret s (wa.get args)

  -- A new request in `dispatch` once the handler has run: what it returned goes into the header of
  -- the reply. A negative number ends the process.
  unfoldable pub reply_to : ℕ → Option (ℕ × Marshall × S) → Option (Marshall × S)
  reply_to xid none = none
  reply_to xid (some (b, rep, s)) =
      if ltb b 2147483648
      then some (pack_reply_header (record { xid = xid; ret = b }) rep, s)
      else none

  unfoldable pub answer_with : S → Option (ReqHeader × Unmarshall) → Option (Marshall × S)
  answer_with s none = none
  answer_with s (some (h, u)) = reply_to h.xid (fn u marshall_new s)

  -- A new request in `dispatch`.
  unfoldable pub answer : Bytes → S → Option (Marshall × S)
  answer buf s = answer_with s (unpack_req_header buf)

-- What `call_m` makes of the reply. A result that does not fill it ends the process.
unfoldable pub call_done : {R : Type 0} → ℕ → Option (R × Unmarshall) → Option (ℕ × Option R)
call_done intret none = none
call_done intret (some (r, u)) = if okdone u then some (intret, some r) else none

-- What `call_m` returns: what `call1` did, and the result where that is not negative.
unfoldable pub call_m : {R : Type 0} → Wire R → ℕ → Unmarshall → Option (ℕ × Option R)
call_m w intret u =
    if ltb intret 2147483648 then call_done intret (w.get u) else some (intret, none)

unfoldable pub reply_with :
    {R : Type 0} → Wire R → Bytes → Option (ReplyHeader × Unmarshall) → Option (ℕ × Option R)
reply_with w buf none = none
reply_with w buf (some (h, u)) = call_m w h.ret (take_in buf)

-- `got_pdu` and the end of `call1` before `call_m` goes on.
unfoldable pub take_reply : {R : Type 0} → Wire R → Bytes → Option (ℕ × Option R)
take_reply w buf = reply_with w buf (unpack_reply_header buf)
