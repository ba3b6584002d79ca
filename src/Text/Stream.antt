-- ===== src/Text/Stream.antt =====
-- An input stream over a text: the `>>` of words and of unsigned numbers, `get`, `getline`.
-- A read that fails sets the failbit, after which every read leaves its variable alone.
use simple_distributed_files.Prelude.{
  ℕ, ◌-◌, ◌%◌, ◌<◌, ◌≡◌, refl, Bool, true, false, ◌&&◌, ◌||◌, [], ◌∷◌, ◌++◌, arith, Bytes, leb,
  ◌==◌, if◌then◌else◌, All, ap, sym, ◌∙◌,
}
use simple_distributed_files.Text.Decimal.{
  is_digit, read_digits, dec, NoDigit, read_digits-dec, dec_head,
}

pub record Stream : Type 0 where
  pub rest : Bytes
  pub good : Bool

abbrev pub open_text : Bytes → Stream
open_text t = record { rest = t; good = true }

abbrev pub failed : Bytes → Stream
failed t = record { rest = t; good = false }

-- `isspace` in the C locale.
unfoldable pub is_space : ℕ → Bool
is_space c = c == 32 || (leb 9 c && leb c 13)

unfoldable pub skip_space : Bytes → Bytes
unfolding is_space
skip_space [] = []
skip_space (c ∷ cs) = elim (is_space c) [ true ↦ skip_space cs | false ↦ c ∷ cs ]

unfoldable pub take_word : Bytes → Bytes × Bytes
unfolding is_space
take_word [] = ([], [])
take_word (c ∷ cs) = elim (is_space c) [
  | true ↦ ([], c ∷ cs)
  | false ↦ let (w, r) = take_word cs in (c ∷ w, r)
]

-- `s >> word`. Nothing but space before the end: the word is left as it was.
unfoldable pub read_word : Bytes → Stream → Bytes × Stream
unfolding skip_space take_word
read_word old s = elim s.good [
  | false ↦ (old, s)
  | true ↦ elim (skip_space s.rest) [
    | [] ↦ (old, failed [])
    | c ∷ cs ↦ let (w, r) = take_word (c ∷ cs) in (w, open_text r)
  ]
]

-- The digits of a number below `limit`; a negated one wraps around, one too large is `limit - 1`.
abbrev finish_num : ℕ → Bool → ℕ × Bytes → ℕ × Stream
finish_num limit negated (n, r) =
    if leb limit n
    then (limit - 1, failed r)
    else (if negated then (limit - n) % limit else n, open_text r)

abbrev num_body : ℕ → Bool → Bytes → ℕ × Stream
num_body limit negated [] = (0, failed [])
num_body limit negated (c ∷ cs) = elim (is_digit c) [
  | true ↦ finish_num limit negated (read_digits 0 (c ∷ cs))
  | false ↦ (0, failed (c ∷ cs))
]

abbrev num_sign : ℕ → Bytes → ℕ × Stream
num_sign limit [] = (0, failed [])
num_sign limit (c ∷ cs) =
    if c == b'-'
    then num_body limit true cs
    else if c == b'+'
    then num_body limit false cs
    else num_body limit false (c ∷ cs)

-- `s >> n` for an unsigned `n` below `limit`.
unfoldable pub read_num : ℕ → ℕ → Stream → ℕ × Stream
unfolding skip_space is_digit read_digits
read_num limit old s = elim s.good [
  | false ↦ (old, s)
  | true ↦ elim (skip_space s.rest) [ [] ↦ (old, failed []) | c ∷ cs ↦ num_sign limit (c ∷ cs) ]
]

-- `s.get()`, the character dropped.
unfoldable pub get : Stream → Stream
get s = elim s.good [ false ↦ s | true ↦ elim s.rest [ [] ↦ failed [] | c ∷ cs ↦ open_text cs ] ]

unfoldable pub take_line : ℕ → Bytes → Bytes × Bytes
take_line delim [] = ([], [])
take_line delim (c ∷ cs) = elim (c == delim) [
  | true ↦ ([], cs)
  | false ↦ let (w, r) = take_line delim cs in (c ∷ w, r)
]

-- `getline(s, line, delim)`. At the end of the text the line is emptied and the read fails.
unfoldable pub getline : ℕ → Bytes → Stream → Bytes × Stream
unfolding take_line
getline delim old s = elim s.good [
  | false ↦ (old, s)
  | true ↦ elim s.rest [
    | [] ↦ ([], failed [])
    | c ∷ cs ↦ let (w, r) = take_line delim (c ∷ cs) in (w, open_text r)
  ]
]

-- A word that `>>` reads back whole: not empty, no space in it.
abbrev pub IsWord : Bytes → Type 0
IsWord [] = ⊥
IsWord (c ∷ cs) = (is_space c ≡ false) × All (λ d. is_space d ≡ false) cs

-- The text is at its end or goes on with a space.
abbrev pub AtSpace : Bytes → Type 0
AtSpace [] = Unit
AtSpace (c ∷ cs) = is_space c ≡ true

take_word-append :
    (w r : Bytes) → All (λ d. is_space d ≡ false) w → AtSpace r → take_word (w ++ r) ≡ (w, r)
unfolding take_word
take_word-append [] [] h e = refl
take_word-append [] (c ∷ r) h e = rw (e, take_word)
take_word-append (c ∷ w) r h e = rw (h.0, take_word) (rw (take_word-append w r h.1 e))

skip_space-word : (c : ℕ) (cs : Bytes) → is_space c ≡ false → skip_space (c ∷ cs) ≡ c ∷ cs
unfolding skip_space
skip_space-word c cs h = rw (h, skip_space)

skip_space-space : (c : ℕ) (cs : Bytes) → is_space c ≡ true → skip_space (c ∷ cs) ≡ skip_space cs
unfolding skip_space
skip_space-space c cs h = rw (h, skip_space)

-- A word that stands first, after one space or none, is read, and the stream is left behind it.
pub read_word-append :
    (old w r : Bytes) → IsWord w → AtSpace r → read_word old (open_text (w ++ r)) ≡ (w, open_text r)
unfolding read_word
read_word-append old [] r h e = absurd h
read_word-append old (c ∷ w) r h e =
    rw (skip_space-word c (w ++ r) h.0, read_word) (rw (take_word-append (c ∷ w) r h e))

pub read_word-space :
    (old r : Bytes) (c : ℕ)
    → is_space c ≡ true
    → read_word old (open_text (c ∷ r)) ≡ read_word old (open_text r)
unfolding read_word
read_word-space old r c e = rw (skip_space-space c r e, read_word)

pub read_num-space :
    (limit old c : ℕ) (r : Bytes)
    → is_space c ≡ true
    → read_num limit old (open_text (c ∷ r)) ≡ read_num limit old (open_text r)
unfolding read_num
read_num-space limit old c r e = rw (skip_space-space c r e, read_num)

num_sign-digit :
    (limit c : ℕ) (cs : Bytes)
    → is_digit c ≡ true
    → num_sign limit (c ∷ cs) ≡ finish_num limit false (read_digits 0 (c ∷ cs))
unfolding is_digit
num_sign-digit limit c cs h = ground arith

digit_no_space : (c : ℕ) → is_digit c ≡ true → is_space c ≡ false
unfolding is_digit is_space
digit_no_space c h = ground arith

finish_in_range :
    (limit n : ℕ) (r : Bytes) → n < limit → finish_num limit false (n, r) ≡ (n, open_text r)
finish_in_range limit n r h = ground arith

-- A number that was written is read back.
pub read_num-dec :
    (limit old n : ℕ) (r : Bytes)
    → n < limit
    → NoDigit r
    → read_num limit old (open_text (dec n ++ r)) ≡ (n, open_text r)
unfolding read_num
read_num-dec limit old n r h stop =
    let (c, cs, e, d) = dec_head n in
    rw (e, skip_space-word c (cs ++ r) (digit_no_space c d), read_num)
      (num_sign-digit limit c (cs ++ r) d
        ∙ ap (finish_num limit false)
            (ap (λ t. read_digits 0 (t ++ r)) (sym e) ∙ read_digits-dec n r stop)
        ∙ finish_in_range limit n r h)

take_line-append :
    (delim : ℕ) (w r : Bytes)
    → All (λ c. (c == delim) ≡ false) w
    → take_line delim (w ++ delim ∷ r) ≡ (w, r)
unfolding take_line
take_line-append delim [] r h = ground arith
take_line-append delim (c ∷ w) r h = rw (h.0, take_line) (rw (take_line-append delim w r h.1))

-- A line is read back up to its delimiter, which is dropped.
pub getline-append :
    (delim : ℕ) (old w r : Bytes)
    → All (λ c. (c == delim) ≡ false) w
    → getline delim old (open_text (w ++ delim ∷ r)) ≡ (w, open_text r)
unfolding getline
getline-append delim old [] r h = rw (take_line-append delim [] r h)
getline-append delim old (c ∷ w) r h = rw (take_line-append delim (c ∷ w) r h)
