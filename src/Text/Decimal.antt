-- ===== src/Text/Decimal.antt =====
-- Decimal digits: what `<<` writes for an unsigned number, and the digits that `>>` takes.
use simple_distributed_files.Prelude.{
  ℕ, zero, suc, ◌+◌, ◌-◌, ◌*◌, ◌/◌, ◌%◌, ◌<◌, ◌≡◌, refl, Bool, true, false, ◌&&◌, [], ◌∷◌, ◌++◌,
  append_assoc, arith, Bytes, ltb, leb, inl, inr, Bool-cases, ap, All, All-append, codes,
}

unfoldable pub is_digit : ℕ → Bool
is_digit c = leb b'0' c && leb c b'9'

-- The fuel bounds the number of digits; `dec` gives a unit more than the number itself.
dec_fuel : ℕ → ℕ → Bytes
dec_fuel zero n = []
dec_fuel (suc f) n = elim (ltb n 10) [
  | true ↦ (b'0' + n) ∷ []
  | false ↦ dec_fuel f (n / 10) ++ (b'0' + n % 10) ∷ []
]

unfoldable pub dec : ℕ → Bytes
unfolding dec_fuel
dec n = dec_fuel (suc n) n

-- Takes the leading digits, onto the value read so far.
unfoldable pub read_digits : ℕ → Bytes → ℕ × Bytes
unfolding is_digit
read_digits acc [] = (acc, [])
read_digits acc (c ∷ cs) = elim (is_digit c) [
  | true ↦ read_digits (acc * 10 + (c - b'0')) cs
  | false ↦ (acc, c ∷ cs)
]

-- The text does not go on with a digit.
abbrev pub NoDigit : Bytes → Type 0
NoDigit [] = Unit
NoDigit (c ∷ cs) = is_digit c ≡ false

digit_lem : (d : ℕ) → d < 10 → is_digit (b'0' + d) ≡ true
unfolding is_digit
digit_lem d h = ground arith

read_digits-digit :
    (acc d n : ℕ) (cs : Bytes)
    → d < 10
    → acc * 10 + d ≡ n
    → read_digits acc ((b'0' + d) ∷ cs) ≡ read_digits n cs
unfolding read_digits
read_digits-digit acc d n cs h e =
    rw (digit_lem d h, read_digits) (ap (λ k. read_digits k cs) (omega arith))

read_digits-dec_fuel :
    (f n : ℕ) (rest : Bytes) → n < f → read_digits 0 (dec_fuel f n ++ rest) ≡ read_digits n rest
unfolding dec_fuel
read_digits-dec_fuel zero n rest h = elim h [ ]
read_digits-dec_fuel (suc f) n rest h = elim (Bool-cases (ltb n 10)) [
  | inl small ↦ rw (small, dec_fuel) (read_digits-digit 0 n n rest (ground arith) (omega arith))
  | inr large ↦
      rw (large, dec_fuel, append_assoc, read_digits-dec_fuel f (n / 10) _ (ground arith))
        (read_digits-digit (n / 10) (n % 10) n rest (omega arith) (omega arith))
]

read_digits_stop : (n : ℕ) (rest : Bytes) → NoDigit rest → read_digits n rest ≡ (n, rest)
unfolding read_digits
read_digits_stop n [] h = refl
read_digits_stop n (c ∷ cs) h = rw (h, read_digits)

-- Reading what was written gives the number back, and the rest of the text.
pub read_digits-dec :
    (n : ℕ) (rest : Bytes) → NoDigit rest → read_digits 0 (dec n ++ rest) ≡ (n, rest)
unfolding dec
read_digits-dec n rest h =
    rw (read_digits-dec_fuel (suc n) n rest (omega arith)) (read_digits_stop n rest h)

dec_fuel_head :
    (f n : ℕ) → n < f → (c : ℕ) × (cs : Bytes) × (dec_fuel f n ≡ c ∷ cs) × (is_digit c ≡ true)
unfolding dec_fuel
dec_fuel_head zero n h = elim h [ ]
dec_fuel_head (suc f) n h = elim (Bool-cases (ltb n 10)) [
  | inl small ↦ (b'0' + n, [], rw (small, dec_fuel), digit_lem n (ground arith))
  | inr large ↦
      let (c, cs, e, d) = dec_fuel_head f (n / 10) (ground arith) in
      (c, cs ++ (b'0' + n % 10) ∷ [], rw (large, dec_fuel, e), d)
]

-- A number is written as at least one character, and the first is a digit.
pub dec_head : (n : ℕ) → (c : ℕ) × (cs : Bytes) × (dec n ≡ c ∷ cs) × (is_digit c ≡ true)
unfolding dec
dec_head n = dec_fuel_head (suc n) n (omega arith)

dec_fuel_digits : (f n : ℕ) → All (λ c. is_digit c ≡ true) (dec_fuel f n)
unfolding dec_fuel
dec_fuel_digits zero n = tt
dec_fuel_digits (suc f) n = elim (Bool-cases (ltb n 10)) [
  | inl small ↦ rw (small, dec_fuel) (digit_lem n (ground arith), tt)
  | inr large ↦
      rw (large, dec_fuel)
        (All-append _ (dec_fuel f (n / 10)) _ (dec_fuel_digits f (n / 10))
          (digit_lem (n % 10) (omega arith), tt))
]

-- Every character of a written number is a digit.
pub dec_digits : (n : ℕ) → All (λ c. is_digit c ≡ true) (dec n)
unfolding dec
dec_digits n = dec_fuel_digits (suc n) n

dec_example : dec 40705 ≡ codes "40705"
unfolding dec
dec_example = refl
