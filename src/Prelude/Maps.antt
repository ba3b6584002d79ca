-- ===== src/Prelude/Maps.antt =====
-- `std::map` with numbers for keys. A program that only indexes its map sees a function.
use Prim.Native.Nat.{ℕ}
use mathlib.Core.Path.{◌≡◌, refl, sym, subst}
use mathlib.Core.Logic.{inl, inr}
use mathlib.Core.Option.{Option, none, some}
use mathlib.Core.List.{List, [], ◌∷◌}
use native.Mathlib.Omega.{arith}
use simple_distributed_files.Prelude.Tests.{◌==◌, if◌then◌else◌, Bool-cases, ==_iff}

abbrev pub Dict {ℓ} : Type ℓ → Type ℓ
Dict V = List (ℕ × V)

module _ {ℓ} {V : Type ℓ} where
  abbrev pub lookup : ℕ → Dict V → Option V
  lookup key [] = none
  lookup key (entry ∷ m) = if key == entry.0 then some entry.1 else lookup key m

  -- `m[key] = v`
  abbrev pub insert : ℕ → V → Dict V → Dict V
  insert key v [] = (key, v) ∷ []
  insert key v (entry ∷ m) = if key == entry.0 then (key, v) ∷ m else entry ∷ insert key v m

  -- `m.erase(key)`
  abbrev pub erase : ℕ → Dict V → Dict V
  erase key [] = []
  erase key (entry ∷ m) = let rest = erase key m in if key == entry.0 then rest else entry ∷ rest

  pub lookup-insert :
      (k j : ℕ) (v : V) (d : Dict V)
      → lookup j (insert k v d) ≡ (if j == k then some v else lookup j d)
  lookup-insert k j v [] = refl
  lookup-insert k j v (e ∷ d) = ground (arith, lookup-insert k j v d)

  pub lookup-erase :
      (k j : ℕ) (d : Dict V) → lookup j (erase k d) ≡ (if j == k then none else lookup j d)
  lookup-erase k j [] = ground arith
  lookup-erase k j (e ∷ d) = ground (arith, lookup-erase k j d)

-- No key stands twice: `std::map` never holds two entries of one key.
abbrev pub Distinct : {V : Type 0} → Dict V → Type 0
Distinct [] = Unit
Distinct (e ∷ d) = (lookup e.0 d ≡ none) × Distinct d

pub insert-Distinct :
    {V : Type 0} (k : ℕ) (v : V) (d : Dict V) → Distinct d → Distinct (insert k v d)
insert-Distinct k v [] h = (refl, tt)
insert-Distinct k v (e ∷ d) h = elim (Bool-cases (k == e.0)) [
  | inl same ↦ rw same (subst (λ j. lookup j d ≡ none) (sym ((==_iff k e.0).0 same)) h.0, h.1)
  | inr other ↦
      rw other (ground (arith, lookup-insert k e.0 v d, h.0, other), insert-Distinct k v d h.1)
]
