-- ===== src/Yfs/Writing.antt =====
-- What `writeFile` of yfs_client.cc makes of a file's text, byte by byte.
use simple_distributed_files.Prelude.{
  false, ℕ, zero, suc, ◌+◌, ◌-◌, ◌%◌, ◌^◌, ◌≤◌, ◌<◌, ◌≡◌, refl, ap, ◌∙◌, inl, inr, ◌&&◌, [], ◌∷◌,
  ◌++◌, some, arith, Bytes, ltb, leb, if◌then◌else◌, length, length-append, length-replicate, take,
  drop, replicate, Bool-cases,
}
use simple_distributed_files.Yfs.Client.{resized, resize, replace, write_text}

-- The byte at a place, and zero beyond the end.
unfoldable pub byte_at : Bytes → ℕ → ℕ
byte_at [] j = 0
byte_at (c ∷ s) zero = c
byte_at (c ∷ s) (suc j) = byte_at s j

byte_at-append :
    (s t : Bytes) (j : ℕ)
    → byte_at (s ++ t) j ≡ (if ltb j (length s) then byte_at s j else byte_at t (j - length s))
unfolding byte_at
byte_at-append [] t j = ground arith
byte_at-append (c ∷ s) t zero = ground arith
byte_at-append (c ∷ s) t (suc j) = ground (arith, byte_at-append s t j)

byte_at-take :
    (n : ℕ) (s : Bytes) (j : ℕ) → byte_at (take n s) j ≡ (if ltb j n then byte_at s j else 0)
unfolding byte_at
byte_at-take zero s j = ground arith
byte_at-take (suc n) [] j = ground arith
byte_at-take (suc n) (c ∷ s) zero = ground arith
byte_at-take (suc n) (c ∷ s) (suc j) = ground (arith, byte_at-take n s j)

shift : (n j : ℕ) → suc (n + j) ≡ suc n + j
shift n j = omega arith

byte_at-drop : (n : ℕ) (s : Bytes) (j : ℕ) → byte_at (drop n s) j ≡ byte_at s (n + j)
unfolding byte_at
byte_at-drop zero s j = ap (byte_at s) (omega arith)
byte_at-drop (suc n) [] j = refl
byte_at-drop (suc n) (c ∷ s) j = byte_at-drop n s j ∙ ap (byte_at (c ∷ s)) (shift n j)

byte_at-replicate : (n j : ℕ) → byte_at (replicate n 0) j ≡ 0
unfolding byte_at
byte_at-replicate zero j = refl
byte_at-replicate (suc n) zero = refl
byte_at-replicate (suc n) (suc j) = byte_at-replicate n j

byte_at-beyond : (s : Bytes) (j : ℕ) → length s ≤ j → byte_at s j ≡ 0
unfolding byte_at
byte_at-beyond [] j h = refl
byte_at-beyond (c ∷ s) zero h = absurd (omega (arith, h))
byte_at-beyond (c ∷ s) (suc j) h = byte_at-beyond s j (omega (arith, h))

pub length-take :
    (n : ℕ) (s : Bytes) → length (take n s) ≡ (if leb n (length s) then n else length s)
length-take zero s = ground arith
length-take (suc n) [] = ground arith
length-take (suc n) (c ∷ s) = ground (arith, length-take n s)

length-drop : (n : ℕ) (s : Bytes) → length (drop n s) ≡ length s - n
length-drop zero s = omega arith
length-drop (suc n) [] = omega arith
length-drop (suc n) (c ∷ s) = omega (arith, length-drop n s)

pub length-resized : (n : ℕ) (s : Bytes) → length (resized n s) ≡ n
unfolding resized
length-resized n s = ground (
  arith,
  length-append (take n s) (replicate (n - length s) 0),
  length-take n s,
  length-replicate {A = ℕ} (n - length s) 0,
)

-- A text that is resized keeps its bytes up to the new size, and is filled with zeros.
pub byte_at-resized :
    (n : ℕ) (s : Bytes) (j : ℕ) → byte_at (resized n s) j ≡ (if ltb j n then byte_at s j else 0)
unfolding resized
byte_at-resized n s j = ground (
  arith,
  byte_at-append (take n s) (replicate (n - length s) 0) j,
  byte_at-take n s j,
  length-take n s,
  byte_at-replicate (n - length s) (j - length (take n s)),
  byte_at-beyond s j,
)

replace_bytes :
    (off : ℕ) (buf s : Bytes) (j : ℕ)
    → byte_at (take off s ++ (buf ++ drop (off + length buf) s)) j ≡ (
        if ltb j (length (take off s))
        then byte_at (take off s) j
        else if ltb (j - length (take off s)) (length buf)
        then byte_at buf (j - length (take off s))
        else byte_at s (off + length buf + (j - length (take off s) - length buf)))
replace_bytes off buf s j = ground (
  arith,
  byte_at-append (take off s) (buf ++ drop (off + length buf) s) j,
  byte_at-append buf (drop (off + length buf) s) (j - length (take off s)),
  byte_at-drop (off + length buf) s (j - length (take off s) - length buf),
)

replaced_cases :
    (off n j : ℕ) (s buf : ℕ → ℕ) (head : ℕ)
    → head ≡ (if ltb j off then s j else 0)
    → (if ltb j off
        then head
        else if ltb (j - off) n
        then buf (j - off)
        else s (off + n + (j - off - n)))
      ≡ (if leb off j && ltb j (off + n) then buf (j - off) else s j)
replaced_cases off n j s buf head h = elim (Bool-cases (ltb j off)) [
  | inl before ↦ ground (arith, before, h)
  | inr after ↦ elim (Bool-cases (ltb (j - off) n)) [
    | inl within ↦ ground (arith, after, within)
    | inr beyond ↦
        let e : off + n + (j - off - n) ≡ j = ground (arith, after, beyond) in
        rw e (ground (arith, after, beyond))
  ]
]

replaced_lem :
    (off : ℕ) (buf s : Bytes) (j : ℕ)
    → off + length buf ≤ length s
    → byte_at (take off s ++ (buf ++ drop (off + length buf) s)) j
      ≡ (if leb off j && ltb j (off + length buf) then byte_at buf (j - off) else byte_at s j)
replaced_lem off buf s j h =
    let e : length (take off s) ≡ off = ground (arith, length-take off s) in
    replace_bytes off buf s j
    ∙ rw e (
        replaced_cases off (length buf) j (byte_at s) (byte_at buf) (byte_at (take off s) j)
          (byte_at-take off s j))

abbrev pub grown : ℕ → Bytes → Bytes
grown e s = if ltb (length s) e then resized e s else s

pub length-grown :
    (e : ℕ) (s : Bytes) → length (grown e s) ≡ (if ltb (length s) e then e else length s)
length-grown e s = ground (arith, length-resized e s)

byte_at-grown : (e : ℕ) (s : Bytes) (j : ℕ) → byte_at (grown e s) j ≡ byte_at s j
byte_at-grown e s j = elim (Bool-cases (ltb (length s) e)) [
  | inl short ↦ rw short (byte_at-resized e s j ∙ ground (arith, short, byte_at-beyond s j))
  | inr long ↦ rw long
]

pub replace_fits :
    (off : ℕ) (buf s : Bytes)
    → off + length buf ≤ length s
    → replace off buf s ≡ some (take off s ++ (buf ++ drop (off + length buf) s))
unfolding replace
replace_fits off buf s h = ground (arith, h)

pub length-replaced :
    (off : ℕ) (buf s : Bytes)
    → off + length buf ≤ length s
    → length (take off s ++ (buf ++ drop (off + length buf) s)) ≡ length s
length-replaced off buf s h = ground (
  arith,
  length-append (take off s) (buf ++ drop (off + length buf) s),
  length-append buf (drop (off + length buf) s),
  length-take off s,
  length-drop (off + length buf) s,
)

pub write_text-grown :
    (max_size : ℕ) (buf : Bytes) (off : ℕ) (current : Bytes)
    → max_size < 2 ^ 64
    → off + length buf ≤ max_size
    → write_text max_size buf off current ≡ replace off buf (grown (off + length buf) current)
unfolding write_text resize
write_text-grown max_size buf off current top h =
    let e : (off + length buf) % 2 ^ 64 ≡ off + length buf = omega (arith, top, h) in
    let fits : ltb max_size (off + length buf) ≡ false = ground (arith, h) in
    rw e (elim (Bool-cases (ltb (length current) (off + length buf))) [
      | inl short ↦ rw (short, fits) refl
      | inr long ↦ rw long refl
    ])

-- A write whose end is at most the size that a string may have never throws, and gives a text that has the bytes written at
-- their places and its old bytes elsewhere, with zeros in a gap after its old end. It is as long
-- as it was, or up to the end of the write.
write_text_lem :
    (max_size : ℕ) (buf : Bytes) (off : ℕ) (current : Bytes)
    → max_size < 2 ^ 64
    → off + length buf ≤ max_size
    → (t : Bytes) × (write_text max_size buf off current ≡ some t)
      × (length t
          ≡ (if ltb (length current) (off + length buf) then off + length buf else length current))
      × ((j : ℕ)
          → byte_at t j ≡ (
              if leb off j && ltb j (off + length buf)
              then byte_at buf (j - off)
              else byte_at current j))
write_text_lem max_size buf off current top h =
    let s : Bytes = grown (off + length buf) current in
    let fits : off + length buf ≤ length s =
      ground (arith, length-grown (off + length buf) current) in
    (
      take off s ++ (buf ++ drop (off + length buf) s),
      write_text-grown max_size buf off current top h ∙ replace_fits off buf s fits,
      length-replaced off buf s fits ∙ length-grown (off + length buf) current,
      λ j.
          replaced_lem off buf s j fits
          ∙ ap (λ b. if leb off j && ltb j (off + length buf) then byte_at buf (j - off) else b)
              (byte_at-grown (off + length buf) current j),
    )
