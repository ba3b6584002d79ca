-- ===== src/Rpc/Unmarshall.antt =====
-- `unmarshall` of rpc/marshall.h and rpc/rpc.cc. The buffer is split at `_ind`: `rest` is what
-- stands from there on, so `_sz` is `ind` and the length of `rest`.
use simple_distributed_files.Prelude.{
  ℕ, zero, suc, ◌+◌, ◌-◌, ◌*◌, ◌%◌, ◌^◌, Bool, true, false, not, ◌&&◌, List, [], ◌∷◌, Option, none,
  some, Bytes, ltb, leb, ◌==◌, if◌then◌else◌, length, take, drop,
}
use simple_distributed_files.Rpc.Marshall.{ReqHeader, ReplyHeader, rpc_header_sz}

pub record Unmarshall : Type 0 where
  pub ind : ℕ
  pub rest : Bytes
  pub ok : Bool

-- A read; `none` is a read beyond the end of the buffer.
abbrev pub Reader : Type 0 → Type 0
Reader A = Unmarshall → Option (A × Unmarshall)

infixl 5 ◌>>=◌ ◌>>◌
abbrev pub ◌>>=◌ : {A B : Type 0} → Reader A → (A → Reader B) → Reader B
◌>>=◌ m f u = elim (m u) [ none ↦ none | some (a, u') ↦ f a u' ]

abbrev pub ◌>>◌ : {A B : Type 0} → Reader A → Reader B → Reader B
m >> k = m >>= λ _. k

abbrev pub pure : {A : Type 0} → A → Reader A
pure a u = some (a, u)

abbrev pub u32 : ℕ
u32 = 2 ^ 32

-- `_sz`
abbrev pub size : Unmarshall → ℕ
size u = u.ind + length u.rest

-- A buffer whose header is skipped: `unmarshall(const std::string &)` and `take_content`.
abbrev pub take_content : Bytes → Unmarshall
take_content s = record { ind = rpc_header_sz; rest = s; ok = true }

-- `take_in`: the buffer of another, from behind its header on.
unfoldable pub take_in : Bytes → Unmarshall
take_in buf = record {
  ind = rpc_header_sz;
  rest = drop rpc_header_sz buf;
  ok = leb rpc_header_sz (length buf);
}

unfoldable pub okdone : Unmarshall → Bool
okdone u = u.ok && u.ind == size u

-- A `char` converted to `unsigned int`: the sign is extended. At the end of the buffer it is 0.
unfoldable pub get_rawbyte : Reader ℕ
get_rawbyte u = elim u.rest [
  | [] ↦ some (0, record u { ok = false })
  | c ∷ cs ↦ some (if ltb c 128 then c else u32 - 256 + c, record u { ind = suc u.ind; rest = cs })
]

unfoldable pub get_bool : Reader Bool
get_bool = do x ← get_rawbyte; pure (not (x == 0))

unfoldable pub get_uchar : Reader ℕ
get_uchar = do x ← get_rawbyte; pure (x % 256)

unfoldable pub get_ushort : Reader ℕ
get_ushort = do a ← get_rawbyte; b ← get_rawbyte; pure (a % 256 * 256 + b % 256)

-- The four bytes do not overlap, so `|` is a sum.
unfoldable pub get_uint : Reader ℕ
get_uint = do
  a ← get_rawbyte
  b ← get_rawbyte
  c ← get_rawbyte
  d ← get_rawbyte
  pure (a % 256 * 2 ^ 24 + b % 256 * 2 ^ 16 + c % 256 * 2 ^ 8 + d % 256)

unfoldable pub get_ullong : Reader ℕ
get_ullong = do h ← get_uint; l ← get_uint; pure (h * u32 + l)

-- The test adds an `int` and an `unsigned`, so the sum is taken modulo 2 ^ 32. A block that
-- passes it and is longer than the rest of the buffer is a read beyond the end.
unfoldable pub get_rawbytes : Bytes → ℕ → Reader Bytes
get_rawbytes old n u =
    if ltb (size u) ((u.ind + n) % u32)
    then some (old, record u { ok = false })
    else if leb n (length u.rest)
    then some (take n u.rest, record u { ind = u.ind + n; rest = drop n u.rest })
    else none

abbrev when_ok : {A : Type 0} → Reader A → A → Reader A
when_ok m old u = if u.ok then m u else some (old, u)

unfoldable pub get_string : Bytes → Reader Bytes
get_string old = do sz ← get_uint; when_ok (get_rawbytes old sz) old

module _ {A : Type 0} (get : Reader A) where
  unfoldable pub get_all : ℕ → Reader (List A)
  get_all zero = pure []
  get_all (suc n) = do z ← get; rest ← get_all n; pure (z ∷ rest)

  unfoldable pub get_vector : Reader (List A)
  get_vector = do n ← get_uint; get_all n

unfoldable pub req_words : Reader ReqHeader
req_words = do
  xid ← get_uint
  proc ← get_uint
  clt_nonce ← get_uint
  srv_nonce ← get_uint
  xid_rep ← get_uint
  pure (record {
    xid = xid;
    proc = proc;
    clt_nonce = clt_nonce;
    srv_nonce = srv_nonce;
    xid_rep = xid_rep;
  })

unfoldable pub reply_words : Reader ReplyHeader
reply_words = do xid ← get_uint; ret ← get_uint; pure (record { xid = xid; ret = ret })

-- The header's words stand behind the word of the channel; the content follows at its own place
-- whatever the header held.
unfoldable pub unpack_req_header : Bytes → Option (ReqHeader × Unmarshall)
unpack_req_header buf = elim (req_words (record { ind = 4; rest = drop 4 buf; ok = true })) [
  | none ↦ none
  | some (h, u) ↦ some (h, record { ind = rpc_header_sz; rest = drop rpc_header_sz buf; ok = u.ok })
]

unfoldable pub unpack_reply_header : Bytes → Option (ReplyHeader × Unmarshall)
unpack_reply_header buf = elim (reply_words (record { ind = 4; rest = drop 4 buf; ok = true })) [
  | none ↦ none
  | some (h, u) ↦ some (h, record { ind = rpc_header_sz; rest = drop rpc_header_sz buf; ok = u.ok })
]
