-- ===== src/Handle/Records.antt =====
-- The three ways in which the cache of handle.cc changes a record: it is replaced, made, deleted.
use simple_distributed_files.Prelude.{
  ℕ, ◌≡◌, refl, sym, ap, ◌∙◌, inl, inr, true, false, Option, none, some, Bytes, str_eq, str_eq_refl,
  str_eq→eq, str_eq_ne, arith, ◌==◌, ==_iff, Bool-cases, some_inj, none_ne_some,
}
use simple_distributed_files.Handle.{Hinfo, HandleMgr, map_set, store_set, hinfo_new, get_new}
use simple_distributed_files.Handle.History.{Held, IsCounted, one_more}

map_hit :
    (m x : Bytes) (v : Option ℕ) (f : Bytes → Option ℕ) → str_eq x m ≡ true → map_set m v f x ≡ v
map_hit m x v f e = rw e refl

map_miss :
    (m x : Bytes) (v : Option ℕ) (f : Bytes → Option ℕ) → str_eq x m ≡ false → map_set m v f x ≡ f x
map_miss m x v f e = rw e refl

other_name :
    (a m : Bytes) (f : Bytes → Option ℕ) (x : ℕ) → f a ≡ some x → f m ≡ none → str_eq a m ≡ false
other_name a m f x h e = elim (Bool-cases (str_eq a m)) [
  | inl y ↦ absurd (none_ne_some (sym e ∙ ap f (sym (str_eq→eq a m y)) ∙ h))
  | inr n ↦ n
]

module _ {C : Type 0} where
  abbrev pub restore : ℕ → Hinfo C → HandleMgr C → HandleMgr C
  restore p h m = record m { store = store_set p (some h) m.store }

  store_hit :
      (p x : ℕ) (h : Option (Hinfo C)) (f : ℕ → Option (Hinfo C))
      → (x == p) ≡ true
      → store_set p h f x ≡ h
  store_hit p x h f e = rw e refl

  store_miss :
      (p x : ℕ) (h : Option (Hinfo C)) (f : ℕ → Option (Hinfo C))
      → (x == p) ≡ false
      → store_set p h f x ≡ f x
  store_miss p x h f e = rw e refl

  -- A record that is replaced by another of the same address.
  pub restored :
      (s : Held C) (p : ℕ) (h h' : Hinfo C) (live : ℕ → ℕ)
      → IsCounted s
      → s.mgr.store p ≡ some h
      → h'.m ≡ h.m
      → h'.refcnt ≡ live p
      → ((x : ℕ) → (x == p) ≡ false → live x ≡ s.live x)
      → IsCounted (record { mgr = restore p h' s.mgr; live = live })
  restored s p h h' live i e same count others = record {
    counts = λ x k f. elim (Bool-cases (x == p)) [
      | inl y ↦
          let q : x ≡ p = (==_iff x p).0 y in
          sym (
            ap (λ (k : Hinfo C). k.refcnt)
              (some_inj (sym (store_hit p x (some h') s.mgr.store y) ∙ f)))
          ∙ count
          ∙ ap live (sym q)
      | inr n ↦ i.counts x k (sym (store_miss p x (some h') s.mgr.store n) ∙ f) ∙ sym (others x n)
    ];
    kept = λ x f. elim (Bool-cases (x == p)) [
      | inl y ↦ absurd (none_ne_some (sym f ∙ store_hit p x (some h') s.mgr.store y))
      | inr n ↦ others x n ∙ i.kept x (sym (store_miss p x (some h') s.mgr.store n) ∙ f)
    ];
    named = λ m x f.
        let (k, g, called) = i.named m x f in
        elim (Bool-cases (x == p)) [
          | inl y ↦
              let q : x ≡ p = (==_iff x p).0 y in
              let k_is : k ≡ h = some_inj (sym g ∙ ap s.mgr.store q ∙ e) in
              (
                h',
                store_hit p x (some h') s.mgr.store y,
                same ∙ sym (ap (λ (k : Hinfo C). k.m) k_is) ∙ called,
              )
          | inr n ↦ (k, store_miss p x (some h') s.mgr.store n ∙ g, called)
        ];
    home = λ x k f. elim (Bool-cases (x == p)) [
      | inl y ↦
          let q : x ≡ p = (==_iff x p).0 y in
          let k_is : h' ≡ k = some_inj (sym (store_hit p x (some h') s.mgr.store y) ∙ f) in
          ap s.mgr.hmap (sym (ap (λ (k : Hinfo C). k.m) k_is) ∙ same)
          ∙ i.home p h e
          ∙ ap some (sym q)
      | inr n ↦ i.home x k (sym (store_miss p x (some h') s.mgr.store n) ∙ f)
    ];
    fresh = λ x le. elim (Bool-cases (x == p)) [
      | inl y ↦ absurd (none_ne_some (sym (i.fresh x le) ∙ ap s.mgr.store ((==_iff x p).0 y) ∙ e))
      | inr n ↦ store_miss p x (some h') s.mgr.store n ∙ i.fresh x le
    ];
  }

  not_fresh :
      (s : Held C) (x : ℕ) (k : Hinfo C)
      → IsCounted s
      → s.mgr.store x ≡ some k
      → (x == s.mgr.next) ≡ false
  not_fresh s x k i g = elim (Bool-cases (x == s.mgr.next)) [
    | inl y ↦ absurd (none_ne_some (sym (i.fresh x (omega (arith, (==_iff x s.mgr.next).0 y))) ∙ g))
    | inr n ↦ n
  ]

  -- The first handle of an address.
  pub created :
      (s : Held C) (m : Bytes)
      → IsCounted s
      → s.mgr.hmap m ≡ none
      → IsCounted (record { mgr = get_new m s.mgr; live = one_more s.mgr.next s.live })
  created s m i e =
      let p = s.mgr.next in
      let new : Option (Hinfo C) = some (hinfo_new m) in
      record {
        counts = λ x k f. elim (Bool-cases (x == p)) [
          | inl y ↦
              let q : x ≡ p = (==_iff x p).0 y in
              let k_is : hinfo_new m ≡ k = some_inj (sym (store_hit p x new s.mgr.store y) ∙ f) in
              let zero_live = i.kept x (i.fresh x (omega (arith, q))) in
              sym (ap (λ (k : Hinfo C). k.refcnt) k_is) ∙ ground (arith, y, zero_live)
          | inr n ↦ i.counts x k (sym (store_miss p x new s.mgr.store n) ∙ f) ∙ ground (arith, n)
        ];
        kept = λ x f. elim (Bool-cases (x == p)) [
          | inl y ↦ absurd (none_ne_some (sym f ∙ store_hit p x new s.mgr.store y))
          | inr n ↦ rw n (i.kept x (sym (store_miss p x new s.mgr.store n) ∙ f))
        ];
        named = λ a x f. elim (Bool-cases (str_eq a m)) [
          | inl y ↦
              let q : p ≡ x = some_inj (sym (map_hit m a (some p) s.mgr.hmap y) ∙ f) in
              (
                hinfo_new m,
                store_hit p x new s.mgr.store (ground (arith, q)),
                sym (str_eq→eq a m y),
              )
          | inr n ↦
              let (k, g, called) = i.named a x (sym (map_miss m a (some p) s.mgr.hmap n) ∙ f) in
              (k, store_miss p x new s.mgr.store (not_fresh s x k i g) ∙ g, called)
        ];
        home = λ x k f. elim (Bool-cases (x == p)) [
          | inl y ↦
              let q : x ≡ p = (==_iff x p).0 y in
              let k_is : hinfo_new m ≡ k = some_inj (sym (store_hit p x new s.mgr.store y) ∙ f) in
              ap (map_set m (some p) s.mgr.hmap) (sym (ap (λ (k : Hinfo C). k.m) k_is))
              ∙ map_hit m m (some p) s.mgr.hmap (str_eq_refl m)
              ∙ ap some (sym q)
          | inr n ↦
              let h = i.home x k (sym (store_miss p x new s.mgr.store n) ∙ f) in
              map_miss m k.m (some p) s.mgr.hmap (other_name k.m m s.mgr.hmap x h e) ∙ h
        ];
        fresh = λ x le.
            store_miss p x new s.mgr.store (ground (arith, le)) ∙ i.fresh x (omega (arith, le));
      }

  present :
      (s : Held C) (p x : ℕ) (k : Hinfo C)
      → store_set p none s.mgr.store x ≡ some k
      → s.mgr.store x ≡ some k
  present s p x k f = elim (Bool-cases (x == p)) [
    | inl y ↦ absurd (none_ne_some (sym (store_hit p x none s.mgr.store y) ∙ f))
    | inr n ↦ sym (store_miss p x none s.mgr.store n) ∙ f
  ]

  other_record :
      (s : Held C) (p x : ℕ) (h k : Hinfo C)
      → s.mgr.store p ≡ some h
      → s.mgr.store x ≡ some k
      → (a : Bytes) → str_eq a h.m ≡ false
      → k.m ≡ a
      → (x == p) ≡ false
  other_record s p x h k e g a n called = elim (Bool-cases (x == p)) [
    | inl y ↦
        let k_is : k ≡ h = some_inj (sym g ∙ ap s.mgr.store ((==_iff x p).0 y) ∙ e) in
        absurd (str_eq_ne a h.m n (sym called ∙ ap (λ (k : Hinfo C). k.m) k_is))
    | inr n' ↦ n'
  ]

  other_address :
      (s : Held C) (p x : ℕ) (h k : Hinfo C)
      → IsCounted s
      → s.mgr.store p ≡ some h
      → store_set p none s.mgr.store x ≡ some k
      → str_eq k.m h.m ≡ false
  other_address s p x h k i e f = elim (Bool-cases (str_eq k.m h.m)) [
    | inl y ↦
        let q : x ≡ p = some_inj (
          sym (i.home x k (present s p x k f))
          ∙ ap s.mgr.hmap (str_eq→eq k.m h.m y)
          ∙ i.home p h e) in
        absurd (none_ne_some (sym (store_hit p x none s.mgr.store (ground (arith, q))) ∙ f))
    | inr n ↦ n
  ]

  -- A record that nobody holds, deleted with its address.
  pub deleted :
      (s : Held C) (p : ℕ) (h : Hinfo C)
      → IsCounted s
      → s.mgr.store p ≡ some h
      → s.live p ≡ 0
      → IsCounted (record s {
        mgr = record s.mgr {
          hmap = map_set h.m none s.mgr.hmap;
          store = store_set p none s.mgr.store;
        };
      })
  deleted s p h i e zero_live = record {
    counts = λ x k f. i.counts x k (present s p x k f);
    kept = λ x f. elim (Bool-cases (x == p)) [
      | inl y ↦ ap s.live ((==_iff x p).0 y) ∙ zero_live
      | inr n ↦ i.kept x (sym (store_miss p x none s.mgr.store n) ∙ f)
    ];
    named = λ a x f. elim (Bool-cases (str_eq a h.m)) [
      | inl y ↦ absurd (none_ne_some (sym (map_hit h.m a none s.mgr.hmap y) ∙ f))
      | inr n ↦
          let (k, g, called) = i.named a x (sym (map_miss h.m a none s.mgr.hmap n) ∙ f) in
          (k, store_miss p x none s.mgr.store (other_record s p x h k e g a n called) ∙ g, called)
    ];
    home = λ x k f.
        map_miss h.m k.m none s.mgr.hmap (other_address s p x h k i e f)
        ∙ i.home x k (present s p x k f);
    fresh = λ x le. elim (Bool-cases (x == p)) [
      | inl y ↦ store_hit p x none s.mgr.store y
      | inr n ↦ store_miss p x none s.mgr.store n ∙ i.fresh x le
    ];
  }
