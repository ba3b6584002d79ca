-- ===== src/Yfs/Split.antt =====
-- `split` of yfs_client.cc gives back the items that stand between delimiters.
use simple_distributed_files.Prelude.{
  ℕ, zero, suc, ◌≤◌, ◌<◌, ◌≡◌, refl, sym, ap, ◌∙◌, subst, true, false, List, [], ◌∷◌, ◌++◌, arith,
  Bytes, ◌==◌, length, length-append, All,
}
use simple_distributed_files.Text.Stream.{open_text, getline, take_line, getline-append}
use simple_distributed_files.Yfs.Directory.{split_items, split}

abbrev pub Without : ℕ → Bytes → Type 0
Without delim = All (λ c. (c == delim) ≡ false)

take_line_all : (delim : ℕ) (w : Bytes) → Without delim w → take_line delim w ≡ (w, [])
unfolding take_line
take_line_all delim [] h = refl
take_line_all delim (c ∷ w) h = rw (h.0, take_line) (rw (take_line_all delim w h.1))

getline_last :
    (delim : ℕ) (old : Bytes) (c : ℕ) (w : Bytes)
    → Without delim (c ∷ w)
    → getline delim old (open_text (c ∷ w)) ≡ (c ∷ w, open_text [])
unfolding getline
getline_last delim old c w h = rw (take_line_all delim (c ∷ w) h)

split_step :
    (f delim : ℕ) (old w r t : Bytes)
    → getline delim old (open_text t) ≡ (w, open_text r)
    → split_items (suc f) delim old (open_text t) ≡ w ∷ split_items f delim w (open_text r)
unfolding split_items
split_step f delim old w r t e =
    subst
      (λ p.
        (elim p.1.good [ false ↦ [] | true ↦ p.0 ∷ split_items f delim p.0 p.1 ])
        ≡ w ∷ split_items f delim w (open_text r))
      (sym e) refl

pub split_end : (f delim : ℕ) (old : Bytes) → split_items f delim old (open_text []) ≡ []
unfolding split_items getline
split_end zero delim old = refl
split_end (suc f) delim old = refl

split_last :
    (f delim : ℕ) (old : Bytes) (c : ℕ) (w : Bytes)
    → Without delim (c ∷ w)
    → split_items (suc f) delim old (open_text (c ∷ w)) ≡ (c ∷ w) ∷ []
split_last f delim old c w h =
    split_step f delim old (c ∷ w) [] (c ∷ w) (getline_last delim old c w h)
    ∙ ap (◌∷◌ (c ∷ w)) (split_end f delim (c ∷ w))

abbrev pub NonEmpty : Bytes → Type 0
NonEmpty [] = ⊥
NonEmpty (c ∷ s) = Unit

split_last_word :
    (f delim : ℕ) (old w : Bytes)
    → NonEmpty w
    → Without delim w
    → split_items (suc f) delim old (open_text w) ≡ w ∷ []
split_last_word f delim old [] n h = absurd n
split_last_word f delim old (c ∷ w) n h = split_last f delim old c w h

-- Items with the delimiter between them.
unfoldable pub joined : ℕ → Bytes → List Bytes → Bytes
joined delim w [] = w
joined delim w (t ∷ ts) = w ++ (delim ∷ joined delim t ts)

abbrev pub IsItem : ℕ → Bytes → Type 0
IsItem delim w = NonEmpty w × Without delim w

length-joined : (delim : ℕ) (w : Bytes) (ts : List Bytes) → length ts ≤ length (joined delim w ts)
unfolding joined
length-joined delim w [] = omega arith
length-joined delim w (t ∷ ts) =
    omega (arith, length-append w (delim ∷ joined delim t ts), length-joined delim t ts)

split_items-joined :
    (f delim : ℕ) (old w : Bytes) (ts : List Bytes)
    → IsItem delim w
    → All (IsItem delim) ts
    → length ts < f
    → split_items f delim old (open_text (joined delim w ts)) ≡ w ∷ ts
unfolding joined
split_items-joined zero delim old w ts h hs le = absurd (omega (arith, le))
split_items-joined (suc f) delim old w [] h hs le = split_last_word f delim old w h.0 h.1
split_items-joined (suc f) delim old w (t ∷ ts) h hs le =
    split_step f delim old w (joined delim t ts) _
      (getline-append delim old w (joined delim t ts) h.1)
    ∙ ap (◌∷◌ w) (split_items-joined f delim w t ts hs.0 hs.1 (omega (arith, le)))

-- Items that are not empty and have no delimiter are what `split` finds between delimiters.
pub split-joined :
    (delim : ℕ) (w : Bytes) (ts : List Bytes)
    → IsItem delim w
    → All (IsItem delim) ts
    → split (joined delim w ts) delim ≡ w ∷ ts
unfolding split
split-joined delim w ts h hs =
    split_items-joined (suc (length (joined delim w ts))) delim [] w ts h hs
      (omega (arith, length-joined delim w ts))
