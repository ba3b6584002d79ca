-- ===== src/Rpc/Marshall.antt =====
-- `marshall` of rpc/marshall.h and rpc/rpc.cc. `_ind` is the header's size and the content's
-- length; the buffer's capacity is kept, to show that no write leaves the buffer. An `int` stands
-- for its bit pattern, and sizes stay below 2 ^ 31.
use simple_distributed_files.Prelude.{
  ℕ, ◌+◌, ◌*◌, ◌/◌, ◌%◌, ◌^◌, ◌≤◌, Bool, List, [], ◌∷◌, ◌++◌, arith, Bytes, leb, ltb, if◌then◌else◌,
  length, length-append,
}

-- `req_header` and `reply_header`.
pub record ReqHeader : Type 0 where
  pub xid : ℕ
  pub proc : ℕ
  pub clt_nonce : ℕ
  pub srv_nonce : ℕ
  pub xid_rep : ℕ

pub record ReplyHeader : Type 0 where
  pub xid : ℕ
  pub ret : ℕ

-- Five words of a request header and the word of the channel; RPC_CHECKSUMMING is not set.
abbrev pub default_rpc_sz : ℕ
default_rpc_sz = 1024

abbrev pub rpc_header_sz : ℕ
rpc_header_sz = 24

pub record Marshall : Type 0 where
  pub header : Bytes
  pub content : Bytes
  pub capa : ℕ

abbrev pub ind : Marshall → ℕ
ind m = rpc_header_sz + length m.content

abbrev pub marshall_new : Marshall
marshall_new = record { header = []; content = []; capa = default_rpc_sz }

unfoldable pub rawbyte : ℕ → Marshall → Marshall
rawbyte x m = record m {
  content = m.content ++ x ∷ [];
  capa = if leb m.capa (ind m) then 2 * m.capa else m.capa;
}

unfoldable pub rawbytes : Bytes → Marshall → Marshall
rawbytes p m = record m {
  content = m.content ++ p;
  capa =
      if ltb m.capa (ind m + length p)
      then (if ltb (length p) m.capa then 2 * m.capa else m.capa + length p)
      else m.capa;
}

-- `(x >> k) & 0xff`
abbrev pub byte : ℕ → ℕ → ℕ
byte x k = x / 2 ^ k % 256

unfoldable pub put_bool : Bool → Marshall → Marshall
unfolding rawbyte
put_bool x = rawbyte (if x then 1 else 0)

unfoldable pub put_uchar : ℕ → Marshall → Marshall
unfolding rawbyte
put_uchar x = rawbyte x

unfoldable pub put_ushort : ℕ → Marshall → Marshall
unfolding rawbyte
put_ushort x m = rawbyte (byte x 0) (rawbyte (byte x 8) m)

-- `<<` of an `unsigned int`, most significant byte first; an `int` goes the same way.
unfoldable pub put_uint : ℕ → Marshall → Marshall
unfolding rawbyte
put_uint x m = rawbyte (byte x 0) (rawbyte (byte x 8) (rawbyte (byte x 16) (rawbyte (byte x 24) m)))

unfoldable pub put_ullong : ℕ → Marshall → Marshall
unfolding put_uint
put_ullong x m = put_uint (x % 2 ^ 32) (put_uint (x / 2 ^ 32 % 2 ^ 32) m)

unfoldable pub put_string : Bytes → Marshall → Marshall
unfolding put_uint rawbytes
put_string s m = rawbytes s (put_uint (length s % 2 ^ 32) m)

module _ {ℓ} {A : Type ℓ} (put : A → Marshall → Marshall) where
  unfoldable pub put_all : List A → Marshall → Marshall
  put_all [] m = m
  put_all (x ∷ xs) m = put_all xs (put x m)

  unfoldable pub put_vector : List A → Marshall → Marshall
  unfolding put_uint put_all
  put_vector v m = put_all v (put_uint (length v % 2 ^ 32) m)

-- The bytes of `pack`, which writes an `int` into the header.
abbrev pub word : ℕ → Bytes
word x = byte x 24 ∷ byte x 16 ∷ byte x 8 ∷ byte x 0 ∷ []

-- The first word of the header is left to the channel.
unfoldable pub pack_req_header : ReqHeader → Marshall → Marshall
pack_req_header h m = record m {
  header =
      word h.xid ++ (word h.proc ++ (word h.clt_nonce ++ (word h.srv_nonce ++ word h.xid_rep)));
}

unfoldable pub pack_reply_header : ReplyHeader → Marshall → Marshall
pack_reply_header h m = record m { header = word h.xid ++ word h.ret }

-- The write position never passes the capacity.
abbrev pub IsWithin : Marshall → Type 0
IsWithin m = ind m ≤ m.capa

rawbyte-IsWithin : (x : ℕ) (m : Marshall) → IsWithin m → IsWithin (rawbyte x m)
unfolding rawbyte
rawbyte-IsWithin x m h = ground (arith, length-append m.content (x ∷ []))

-- If the write position is within the capacity, it still is after a byte or a block of any size
-- is written: the buffer grows enough.
pub grows_enough :
    (x : ℕ) (p : Bytes) (m : Marshall)
    → IsWithin m
    → IsWithin (rawbyte x m) × IsWithin (rawbytes p m)
unfolding rawbytes
grows_enough x p m h = (rawbyte-IsWithin x m h, ground (arith, length-append m.content p))
