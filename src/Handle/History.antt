-- ===== src/Handle/History.antt =====
-- Histories of the cache of handle.cc, and what its records and handles keep.
use simple_distributed_files.Prelude.{
  ℕ, ◌+◌, ◌-◌, ◌≤◌, ◌≡◌, refl, List, [], ◌∷◌, Option, none, some, Bytes, ◌==◌, if◌then◌else◌,
  none_ne_some,
}
use simple_distributed_files.Handle.{
  Hinfo, HandleMgr, handle_mgr_new, get_handle, delete_handle_wo, done_handle, safebind,
}

-- What threads do: take a handle of an address, drop one that holds a record, delete an address,
-- and bind by a handle that holds a record.
pub data Use (C : Type 0) : Type 0 where
  takes deletes : Bytes → Use C
  drops : ℕ → Use C
  binds : Option C → ℕ → Use C

-- The cache, with how many handles hold each record.
pub record Held (C : Type 0) : Type 0 where
  pub mgr : HandleMgr C
  pub live : ℕ → ℕ

abbrev pub one_more : ℕ → (ℕ → ℕ) → ℕ → ℕ
one_more p f x = if x == p then f x + 1 else f x

abbrev pub one_less : ℕ → (ℕ → ℕ) → ℕ → ℕ
one_less p f x = if x == p then f x - 1 else f x

module _ {C : Type 0} where
  abbrev pub held_new : Held C
  held_new = record { mgr = handle_mgr_new; live = λ p. 0 }

  abbrev pub taken : Held C → Option (HandleMgr C × Option ℕ) → Option (Held C)
  taken s none = none
  taken s (some (m, none)) = some (record s { mgr = m })
  taken s (some (m, some p)) = some (record { mgr = m; live = one_more p s.live })

  abbrev pub put_mgr : Held C → Option (HandleMgr C) → Option (Held C)
  put_mgr s none = none
  put_mgr s (some m) = some (record s { mgr = m })

  abbrev pub put_bound : Held C → Option (HandleMgr C × Option C) → Option (Held C)
  put_bound s none = none
  put_bound s (some (m, c)) = some (record s { mgr = m })

  -- A handle that nobody has is neither dropped nor bound.
  unfoldable pub use_one : Use C → Held C → Option (Held C)
  use_one (takes m) s = taken s (get_handle m s.mgr)
  use_one (deletes m) s = put_mgr s (delete_handle_wo m s.mgr)
  use_one (drops p) s =
      if s.live p == 0
      then some s
      else put_mgr (record s { live = one_less p s.live }) (done_handle p s.mgr)
  use_one (binds made p) s =
      if s.live p == 0 then some s else put_bound s (safebind made (some p) s.mgr)

  abbrev pub and_use : (Held C → Option (Held C)) → Option (Held C) → Option (Held C)
  and_use f none = none
  and_use f (some s) = f s

  unfoldable pub use_all : List (Use C) → Held C → Option (Held C)
  use_all [] s = some s
  use_all (u ∷ us) s = and_use (use_all us) (use_one u s)

  -- The count of a record is how many hold it, a record that is held is there, and the cache knows
  -- exactly the records that are there, by their addresses.
  pub record IsCounted (s : Held C) : Type 0 where
    pub counts : (p : ℕ) (h : Hinfo C) → s.mgr.store p ≡ some h → h.refcnt ≡ s.live p
    pub kept : (p : ℕ) → s.mgr.store p ≡ none → s.live p ≡ 0
    pub named :
        (m : Bytes) (p : ℕ)
        → s.mgr.hmap m ≡ some p
        → (h : Hinfo C) × (s.mgr.store p ≡ some h) × (h.m ≡ m)
    pub home : (p : ℕ) (h : Hinfo C) → s.mgr.store p ≡ some h → s.mgr.hmap h.m ≡ some p
    pub fresh : (p : ℕ) → s.mgr.next ≤ p → s.mgr.store p ≡ none

  pub held_new-IsCounted : IsCounted held_new
  held_new-IsCounted = record {
    counts = λ p h e. absurd (none_ne_some e);
    kept = λ p e. refl;
    named = λ m p e. absurd (none_ne_some e);
    home = λ p h e. absurd (none_ne_some e);
    fresh = λ p le. refl;
  }

  -- A step that neither follows a deleted record nor breaks the invariant.
  abbrev pub Counted : Option (Held C) → Type 0
  Counted none = ⊥
  Counted (some s) = IsCounted s
