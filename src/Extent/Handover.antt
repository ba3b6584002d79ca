-- ===== src/Extent/Handover.antt =====
-- One step of one client among many (extent_client.cc under locks): the files stay shared, and the
-- text of no other file changes; and a lock that goes on.
use simple_distributed_files.Prelude.{
  ℕ, ◌≡◌, refl, sym, ap, ap₂, ◌∙◌, inl, inr, true, false, Option, none, some, arith, lookup, ◌==◌,
  ==_iff, if◌then◌else◌, Option-cases, Bool-cases, some_inj, none_ne_some,
}
use simple_distributed_files.Extent.Server.{stored}
use simple_distributed_files.Extent.Client.{World, CachedExtent}
use simple_distributed_files.Extent.Cache.{or_empty, seen, seen_of, IsCoherent}
use simple_distributed_files.Extent.Sharing.{
  Shared, view, put_back, give, holds, IsShared, text_of, text, Touches,
}

pub holder_of : (c id : ℕ) (s : Shared) → holds c id s ≡ true → s.holder id ≡ some c
unfolding holds
holder_of c id s h = ground (arith, h)

pub uncached_elsewhere :
    (c d id : ℕ) (s : Shared)
    → IsShared s
    → holds c id s ≡ true
    → (d == c) ≡ false
    → lookup id (s.caches d) ≡ none
uncached_elsewhere c d id s v h other = elim (Option-cases (lookup id (s.caches d))) [
  | inl e ↦ e
  | inr (e, hit) ↦
      let same : c ≡ d = some_inj (sym (holder_of c id s h) ∙ v.owned d id e hit) in
      absurd (ground (arith, same, other))
]

seen_same :
    (j : ℕ) (w w' : World)
    → lookup j w'.extent_list ≡ lookup j w.extent_list
    → stored j w'.server ≡ stored j w.server
    → seen j w' ≡ seen j w
unfolding seen
seen_same j w w' e t = ap₂ (λ x y. seen_of x (or_empty y)) e t

-- One step of a client that holds the file's lock.
module _ (c id : ℕ) (s : Shared) (w' : World) (v : IsShared s) (h : holds c id s ≡ true)
    (touches : Touches id (view c s) w') where
  others-IsCoherent :
      (d : ℕ)
      → (d == c) ≡ false
      → IsCoherent (record { extent_list = s.caches d; server = w'.server })
  others-IsCoherent d other j e hit clean = elim (Bool-cases (j == id)) [
    | inl same ↦ absurd (
        none_ne_some (
          sym (uncached_elsewhere c d id s v h other)
          ∙ ap (λ k. lookup k (s.caches d)) (sym ((==_iff j id).0 same))
          ∙ hit))
    | inr away ↦ v.coherent d j e hit clean ∙ ap or_empty (sym (touches.texts j away))
  ]

  step-IsCoherent : IsCoherent w' → (d : ℕ) → IsCoherent (view d (put_back c w' s))
  step-IsCoherent coherent d = elim (Bool-cases (d == c)) [
    | inl same ↦ rw same coherent
    | inr other ↦ rw other (others-IsCoherent d other)
  ]

  step-owned :
      (d j : ℕ) (e : CachedExtent)
      → lookup j ((put_back c w' s).caches d) ≡ some e
      → s.holder j ≡ some d
  step-owned d j e hit = elim (Bool-cases (d == c)) [
    | inl same ↦ elim (Bool-cases (j == id)) [
      | inl here ↦
          ap s.holder ((==_iff j id).0 here)
          ∙ holder_of c id s h
          ∙ ap some (sym ((==_iff d c).0 same))
      | inr away ↦
          v.owned c j e (sym (touches.entries j away) ∙ rw same at hit)
          ∙ ap some (sym ((==_iff d c).0 same))
    ]
    | inr other ↦ v.owned d j e (rw other at hit)
  ]

  pub step-IsShared : IsCoherent w' → IsShared (put_back c w' s)
  step-IsShared coherent = record { coherent = step-IsCoherent coherent; owned = step-owned }

  entry_away :
      (d j : ℕ) → (j == id) ≡ false → lookup j ((put_back c w' s).caches d) ≡ lookup j (s.caches d)
  entry_away d j away = elim (Bool-cases (d == c)) [
    | inl same ↦
        rw same
          (touches.entries j away ∙ ap (λ k. lookup j (s.caches k)) (sym ((==_iff d c).0 same)))
    | inr other ↦ rw other
  ]

  text_of_away :
      (j : ℕ) (o : Option ℕ) → (j == id) ≡ false → text_of j (put_back c w' s) o ≡ text_of j s o
  text_of_away j none away = ap or_empty (touches.texts j away)
  text_of_away j (some d) away =
      seen_same j (view d s) (view d (put_back c w' s)) (entry_away d j away) (touches.texts j away)

  step_here : text id (put_back c w' s) ≡ seen id w'
  unfolding text
  step_here =
      ap (text_of id (put_back c w' s)) (holder_of c id s h)
      ∙ seen_same id w' (view c (put_back c w' s)) (rw ((==_iff c c).1 refl)) refl

  -- The file's text is what the step leaves, and no other changes.
  pub step_text : (j : ℕ) → text j (put_back c w' s) ≡ (if j == id then seen id w' else text j s)
  unfolding text
  step_text j = elim (Bool-cases (j == id)) [
    | inl here ↦ rw here (ap (λ k. text k (put_back c w' s)) ((==_iff j id).0 here) ∙ step_here)
    | inr away ↦ rw away (text_of_away j (s.holder j) away)
  ]

-- The text of a file at its holder, before a step.
pub text_held : (c id : ℕ) (s : Shared) → holds c id s ≡ true → text id s ≡ seen id (view c s)
unfolding text
text_held c id s h = ap (text_of id s) (holder_of c id s h)

-- A lock goes to a client while nobody caches the file.
module _ (c id : ℕ) (s : Shared) (v : IsShared s)
    (idle : (d : ℕ) → lookup id (s.caches d) ≡ none) where
  pub give-IsShared : IsShared (give id c s)
  give-IsShared = record {
    coherent = v.coherent;
    owned = λ d j e hit. elim (Bool-cases (j == id)) [
      | inl here ↦ absurd (
          none_ne_some
            (sym (idle d) ∙ ap (λ k. lookup k (s.caches d)) (sym ((==_iff j id).0 here)) ∙ hit))
      | inr away ↦ rw away (v.owned d j e hit)
    ];
  }

  unheld_text : (o : Option ℕ) → text_of id s o ≡ or_empty (stored id s.server)
  unfolding seen
  unheld_text none = refl
  unheld_text (some d) = ap (λ x. seen_of x (or_empty (stored id s.server))) (idle d)

  text_of-give : (j : ℕ) (o : Option ℕ) → text_of j (give id c s) o ≡ text_of j s o
  unfolding seen
  text_of-give j none = refl
  text_of-give j (some d) = refl

  pub give_text : (j : ℕ) → text j (give id c s) ≡ text j s
  unfolding text
  give_text j = elim (Bool-cases (j == id)) [
    | inl here ↦ rw here (
        ap (λ k. text_of k s (some c)) ((==_iff j id).0 here)
        ∙ unheld_text (some c)
        ∙ sym (unheld_text (s.holder id))
        ∙ ap (λ k. text_of k s (s.holder k)) (sym ((==_iff j id).0 here)))
    | inr away ↦ rw away (text_of-give j (s.holder j))
  ]
