-- ===== src/Rpc/RoundTrip.antt =====
-- What `marshall` writes `unmarshall` reads back, value by value and in sequence.
use simple_distributed_files.Prelude.{
  ℕ, suc, ◌+◌, ◌-◌, ◌*◌, ◌/◌, ◌%◌, ◌^◌, ◌<◌, ◌≡◌, refl, sym, ap, ap₂, ◌∙◌, Bool, true, false, [],
  ◌∷◌, ◌++◌, append_assoc, append-nil, some, arith, Bytes, ltb, if◌then◌else◌, length, take, drop,
  length-append,
}
use simple_distributed_files.Rpc.Marshall.{
  Marshall, rawbytes, byte, put_bool, put_uint, put_ullong, put_string, marshall_new, rpc_header_sz,
}
use simple_distributed_files.Rpc.Unmarshall.{
  Unmarshall, Reader, ◌>>=◌, pure, u32, get_rawbyte, get_bool, get_uint, get_ullong, take_content,
  okdone, get_rawbytes, get_string,
}

-- `get` reads `a` off the bytes `s`, wherever they stand and whatever follows.
abbrev pub Reads : {A : Type 0} → Reader A → Bytes → A → Type 0
Reads get s a =
    (i : ℕ) (r : Bytes)
    → i + length s + length r < u32
    → get (record { ind = i; rest = s ++ r; ok = true })
      ≡ some (a, record { ind = i + length s; rest = r; ok = true })

-- `put` appends to the content the bytes `s`.
abbrev pub Writes : (Marshall → Marshall) → Bytes → Type 0
Writes put s = (m : Marshall) → (put m).content ≡ m.content ++ s

unfoldable pub uint_bytes : ℕ → Bytes
uint_bytes x = byte x 24 ∷ byte x 16 ∷ byte x 8 ∷ byte x 0 ∷ []

pub put_uint-Writes : (x : ℕ) → Writes (put_uint x) (uint_bytes x)
unfolding put_uint uint_bytes
put_uint-Writes x m = simp append_assoc

sign_extended : ℕ → ℕ
sign_extended c = if ltb c 128 then c else u32 - 256 + c

low_byte : (c : ℕ) → c < 256 → sign_extended c % 256 ≡ c
unfolding sign_extended
low_byte c h = ground arith

get_uint_at :
    (a b c d i : ℕ) (r : Bytes)
    → get_uint (record { ind = i; rest = a ∷ b ∷ c ∷ d ∷ r; ok = true })
      ≡ some (
        sign_extended a % 256 * 2 ^ 24
            + sign_extended b % 256 * 2 ^ 16
            + sign_extended c % 256 * 2 ^ 8
            + sign_extended d % 256,
        record { ind = suc (suc (suc (suc i))); rest = r; ok = true },
      )
unfolding get_uint get_rawbyte sign_extended
get_uint_at a b c d i r = refl

-- A word is read as it was written.
pub get_uint-Reads : (x : ℕ) → x < u32 → Reads get_uint (uint_bytes x) x
unfolding uint_bytes
get_uint-Reads x h i r fits =
    get_uint_at (byte x 24) (byte x 16) (byte x 8) (byte x 0) i r
    ∙ ap₂ (λ n j. some (n, record { ind = j; rest = r; ok = true }))
        (omega (
          arith,
          low_byte (byte x 24) (omega arith),
          low_byte (byte x 16) (omega arith),
          low_byte (byte x 8) (omega arith),
          low_byte (byte x 0) (omega arith),
        ))
        (omega arith)

pub Reads-pure : {A : Type 0} (a : A) → Reads (pure a) [] a
Reads-pure a i r fits = ap (λ j. some (a, record { ind = j; rest = r; ok = true })) (omega arith)

pub bind_some :
    {A B : Type 0} (m : Reader A) (f : A → Reader B) (u v : Unmarshall) (a : A)
    → m u ≡ some (a, v)
    → (m >>= f) u ≡ f a v
bind_some m f u v a e = rw (e, ◌>>=◌)

-- One read after the other.
pub Reads-bind :
    {A B : Type 0} (m : Reader A) (f : A → Reader B) (s t : Bytes) (a : A) (b : B)
    → Reads m s a
    → Reads (f a) t b
    → Reads (m >>= f) (s ++ t) b
Reads-bind m f s t a b h k i r fits =
    let room : i + length s + length (t ++ r) < u32 =
      omega (arith, length-append s t, length-append t r) in
    ap (λ z. (m >>= f) (record { ind = i; rest = z; ok = true })) (append_assoc s t r)
    ∙ bind_some m f _ _ a (h i (t ++ r) room)
    ∙ k (i + length s) r (omega (arith, length-append s t))
    ∙ ap (λ j. some (b, record { ind = j; rest = r; ok = true })) (omega (arith, length-append s t))

-- The last read of a block, whose value goes into the result.
pub Reads-last :
    {A B : Type 0} (m : Reader A) (f : A → B) (s : Bytes) (a : A) (b : B)
    → f a ≡ b
    → Reads m s a
    → Reads (do x ← m; pure (f x)) s b
Reads-last m f s a b e h i r fits =
    bind_some m (λ x. pure (f x)) _ _ a (h i r fits)
    ∙ ap (λ y. some (y, record { ind = i + length s; rest = r; ok = true })) e

pub Writes-then :
    (put put' : Marshall → Marshall) (s t : Bytes)
    → Writes put s
    → Writes put' t
    → Writes (λ m. put' (put m)) (s ++ t)
Writes-then put put' s t h k m = k (put m) ∙ ap (λ c. c ++ t) (h m) ∙ append_assoc m.content s t

unfoldable pub bool_bytes : Bool → Bytes
bool_bytes x = (if x then 1 else 0) ∷ []

pub put_bool-Writes : (x : Bool) → Writes (put_bool x) (bool_bytes x)
unfolding put_bool bool_bytes
put_bool-Writes x m = refl

pub get_bool-Reads : (x : Bool) → Reads get_bool (bool_bytes x) x
unfolding get_bool get_rawbyte bool_bytes
get_bool-Reads true i r fits =
    ap (λ j. some (true, record { ind = j; rest = r; ok = true })) (omega arith)
get_bool-Reads false i r fits =
    ap (λ j. some (false, record { ind = j; rest = r; ok = true })) (omega arith)

unfoldable pub ullong_bytes : ℕ → Bytes
ullong_bytes x = uint_bytes (x / 2 ^ 32 % 2 ^ 32) ++ uint_bytes (x % 2 ^ 32)

pub put_ullong-Writes : (x : ℕ) → Writes (put_ullong x) (ullong_bytes x)
unfolding put_ullong ullong_bytes
put_ullong-Writes x =
    Writes-then (put_uint (x / 2 ^ 32 % 2 ^ 32)) (put_uint (x % 2 ^ 32)) _ _
      (put_uint-Writes (x / 2 ^ 32 % 2 ^ 32)) (put_uint-Writes (x % 2 ^ 32))

pub get_ullong-Reads : (x : ℕ) → x < 2 ^ 64 → Reads get_ullong (ullong_bytes x) x
unfolding get_ullong ullong_bytes
get_ullong-Reads x h =
    Reads-bind get_uint _ (uint_bytes (x / 2 ^ 32 % 2 ^ 32)) (uint_bytes (x % 2 ^ 32))
      (x / 2 ^ 32 % 2 ^ 32) x (get_uint-Reads (x / 2 ^ 32 % 2 ^ 32) (omega arith))
      (Reads-last get_uint (λ l. x / 2 ^ 32 % 2 ^ 32 * u32 + l) (uint_bytes (x % 2 ^ 32))
        (x % 2 ^ 32) x (omega arith) (get_uint-Reads (x % 2 ^ 32) (omega arith)))

unfoldable pub string_bytes : Bytes → Bytes
string_bytes s = uint_bytes (length s % 2 ^ 32) ++ s

pub put_string-Writes : (s : Bytes) → Writes (put_string s) (string_bytes s)
unfolding put_string rawbytes string_bytes
put_string-Writes s =
    Writes-then (put_uint (length s % 2 ^ 32)) (rawbytes s) _ s
      (put_uint-Writes (length s % 2 ^ 32)) (λ m. refl)

take-append : (s r : Bytes) → (take (length s) (s ++ r) ≡ s) × (drop (length s) (s ++ r) ≡ r)
take-append [] r = (refl, refl)
take-append (x ∷ s) r = let (t, d) = take-append s r in (ap (◌∷◌ x) t, d)

get_rawbytes-Reads : (old s : Bytes) → Reads (get_rawbytes old (length s)) s s
unfolding get_rawbytes
get_rawbytes-Reads old s i r fits =
    let (t, d) = take-append s r in ground (arith, t, d, length-append s r)

pub get_string-Reads : (old s : Bytes) → Reads (get_string old) (string_bytes s) s
unfolding get_string string_bytes
get_string-Reads old s =
    Reads-bind get_uint _ (uint_bytes (length s % 2 ^ 32)) s (length s % 2 ^ 32) s
      (get_uint-Reads (length s % 2 ^ 32) (omega arith))
      (λ i r fits.
        let e : length s % 2 ^ 32 ≡ length s = omega arith in
        ap (λ n. get_rawbytes old n (record { ind = i; rest = s ++ r; ok = true })) e
        ∙ get_rawbytes-Reads old s i r fits)

-- A message that is written alone is read back whole, and `okdone` holds of the read.
pub message_round_trip :
    {A : Type 0} (put : Marshall → Marshall) (get : Reader A) (bytes : Bytes) (a : A)
    → Writes put bytes
    → Reads get bytes a
    → rpc_header_sz + length bytes < u32
    → (u : Unmarshall) × (get (take_content (put marshall_new).content) ≡ some (a, u))
      × (okdone u ≡ true)
unfolding okdone
message_round_trip put get bytes a w r fits = (
  record { ind = rpc_header_sz + length bytes; rest = []; ok = true },
  ap (λ c. get (take_content c)) (w marshall_new ∙ sym (append-nil bytes))
      ∙ r rpc_header_sz [] (omega arith),
  ground arith,
)
