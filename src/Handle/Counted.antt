-- ===== src/Handle/Counted.antt =====
-- No record of the cache of handle.cc that somebody holds is ever deleted.
use simple_distributed_files.Prelude.{
  ℕ, ◌+◌, ◌-◌, ◌≡◌, refl, sym, ◌∙◌, subst, ◌⊎◌, inl, inr, Bool, true, false, ◌&&◌, List, [], ◌∷◌,
  Option, none, some, Bytes, arith, ◌==◌, ==_iff, Bool-cases, Option-cases,
}
use simple_distributed_files.Handle.{
  Hinfo, get_known, get_found, get_handle, delete_known, delete_found, delete_handle_wo, done_at,
  done_handle, bind_at, safebind,
}
use simple_distributed_files.Handle.History.{
  Use, takes, deletes, drops, binds, Held, held_new, held_new-IsCounted, IsCounted, Counted,
  one_more, one_less, taken, put_mgr, put_bound, and_use, use_one, use_all,
}
use simple_distributed_files.Handle.Records.{restored, created, deleted}

module _ {C : Type 0} where
  get_known_lem :
      (s : Held C) (p : ℕ) (h : Hinfo C)
      → IsCounted s
      → s.mgr.store p ≡ some h
      → Counted (taken s (get_known p s.mgr (some h)))
  unfolding get_known
  get_known_lem s p h i e = elim (Bool-cases h.del) [
    | inl d ↦ rw d i
    | inr d ↦ rw d (
        restored s p h (record h { refcnt = h.refcnt + 1; del = false }) (one_more p s.live) i e
          refl (ground (arith, i.counts p h e)) (λ x n. rw n refl))
  ]

  get_handle_lem : (s : Held C) (m : Bytes) → IsCounted s → Counted (taken s (get_handle m s.mgr))
  unfolding get_handle get_found
  get_handle_lem s m i = elim (Option-cases (s.mgr.hmap m)) [
    | inl e ↦ subst (λ o. Counted (taken s (get_found m s.mgr o))) (sym e) (created s m i e)
    | inr (p, e) ↦
        let (h, f, called) = i.named m p e in
        subst (λ o. Counted (taken s (get_found m s.mgr o))) (sym e)
          (subst (λ o. Counted (taken s (get_known p s.mgr o))) (sym f) (get_known_lem s p h i f))
  ]

  delete_known_lem :
      (s : Held C) (p : ℕ) (h : Hinfo C)
      → IsCounted s
      → s.mgr.store p ≡ some h
      → Counted (put_mgr s (delete_known h.m p s.mgr (some h)))
  unfolding delete_known
  delete_known_lem s p h i e = elim (Bool-cases (h.refcnt == 0)) [
    | inl z ↦ rw z (deleted s p h i e (sym (i.counts p h e) ∙ (==_iff h.refcnt 0).0 z))
    | inr n ↦
        rw n
          (restored s p h (record h { del = true }) s.live i e refl (i.counts p h e) (λ x n. refl))
  ]

  delete_handle_wo_lem :
      (s : Held C) (m : Bytes) → IsCounted s → Counted (put_mgr s (delete_handle_wo m s.mgr))
  unfolding delete_handle_wo delete_found
  delete_handle_wo_lem s m i = elim (Option-cases (s.mgr.hmap m)) [
    | inl e ↦ subst (λ o. Counted (put_mgr s (delete_found m s.mgr o))) (sym e) i
    | inr (p, e) ↦
        let (h, f, called) = i.named m p e in
        subst (λ o. Counted (put_mgr s (delete_found m s.mgr o))) (sym e)
          (subst (λ o. Counted (put_mgr s (delete_known m p s.mgr o))) (sym f)
            (subst (λ x. Counted (put_mgr s (delete_known x p s.mgr (some h)))) called
              (delete_known_lem s p h i f)))
  ]

  -- The record of a handle that somebody has.
  held_record :
      (s : Held C) (p : ℕ)
      → IsCounted s
      → (s.live p == 0) ≡ false
      → (h : Hinfo C) × (s.mgr.store p ≡ some h)
  held_record s p i n = elim (Option-cases (s.mgr.store p)) [
    | inl e ↦ absurd (ground (arith, n, i.kept p e))
    | inr found ↦ found
  ]

  done_lem :
      (s : Held C) (p : ℕ) (h : Hinfo C)
      → IsCounted s
      → s.mgr.store p ≡ some h
      → Counted (put_mgr (record s { live = one_less p s.live }) (done_at p s.mgr (some h)))
  unfolding done_at
  done_lem s p h i e =
      let less = record h { refcnt = h.refcnt - 1 } in
      let j =
        restored s p h less (one_less p s.live) i e refl (ground (arith, i.counts p h e))
          (λ x n. rw n refl) in
      elim (Bool-cases (h.refcnt - 1 == 0 && h.del)) [
        | inl z ↦ rw z (delete_handle_wo_lem _ h.m j)
        | inr n ↦ rw n j
      ]

  bind_at_lem :
      (s : Held C) (made cl : Option C) (p refcnt : ℕ) (del : Bool) (m : Bytes)
      → let h : Hinfo C = record { cl = cl; refcnt = refcnt; del = del; m = m } in
        IsCounted s → s.mgr.store p ≡ some h → Counted (put_bound s (bind_at made p s.mgr (some h)))
  unfolding bind_at
  bind_at_lem s made cl p refcnt true m i e = i
  bind_at_lem s made (some c) p refcnt false m i e = i
  bind_at_lem s none none p refcnt false m i e =
      restored s p _ (record { cl = none; refcnt = refcnt; del = true; m = m }) s.live i e refl
        (i.counts p _ e) (λ x n. refl)
  bind_at_lem s (some c) none p refcnt false m i e =
      restored s p _ (record { cl = some c; refcnt = refcnt; del = false; m = m }) s.live i e refl
        (i.counts p _ e) (λ x n. refl)

  use_one_lem : (u : Use C) (s : Held C) → IsCounted s → Counted (use_one u s)
  unfolding use_one done_handle safebind
  use_one_lem (takes m) s i = get_handle_lem s m i
  use_one_lem (deletes m) s i = delete_handle_wo_lem s m i
  use_one_lem (drops p) s i = elim (Bool-cases (s.live p == 0)) [
    | inl e ↦ rw e i
    | inr n ↦
        let (h, f) = held_record s p i n in
        rw n (
          subst (λ o. Counted (put_mgr (record s { live = one_less p s.live }) (done_at p s.mgr o)))
            (sym f) (done_lem s p h i f))
  ]
  use_one_lem (binds made p) s i = elim (Bool-cases (s.live p == 0)) [
    | inl e ↦ rw e i
    | inr n ↦
        let (h, f) = held_record s p i n in
        rw n (
          subst (λ o. Counted (put_bound s (bind_at made p s.mgr o))) (sym f)
            (bind_at_lem s made h.cl p h.refcnt h.del h.m i f))
  ]

  and_use_lem :
      (f : Held C → Option (Held C)) (o : Option (Held C))
      → ((s : Held C) → IsCounted s → Counted (f s))
      → Counted o
      → Counted (and_use f o)
  and_use_lem f none h c = c
  and_use_lem f (some s) h c = h s c

  use_all_lem : (us : List (Use C)) (s : Held C) → IsCounted s → Counted (use_all us s)
  unfolding use_all
  use_all_lem [] s i = i
  use_all_lem (u ∷ us) s i =
      and_use_lem (use_all us) (use_one u s) (use_all_lem us) (use_one_lem u s i)

  survivor : (o : Option (Held C)) → Counted o → (s : Held C) × (o ≡ some s) × IsCounted s
  survivor none c = absurd c
  survivor (some s) c = (s, refl, c)

-- Over any sequence of taking handles, dropping handles that hold a record, deleting addresses and
-- binding, with `bind` succeeding or not, no call follows a record that was deleted, and afterwards
-- the record of every handle that somebody still has is there, with as many references as there
-- are such handles, under its address.
pub handles_safe :
    (C : Type 0) (us : List (Use C))
    → (s : Held C) × (use_all us held_new ≡ some s)
      × ((p : ℕ)
          → (s.live p ≡ 0)
            ⊎ ((h : Hinfo C) × (s.mgr.store p ≡ some h)
                × (h.refcnt ≡ s.live p)
                × (s.mgr.hmap h.m ≡ some p)))
handles_safe C us =
    let (s, e, i) = survivor (use_all us held_new) (use_all_lem us held_new held_new-IsCounted) in
    (
      s,
      e,
      λ p. elim (Option-cases (s.mgr.store p)) [
        | inl f ↦ inl (i.kept p f)
        | inr (h, f) ↦ inr (h, f, i.counts p h f, i.home p h f)
      ],
    )
