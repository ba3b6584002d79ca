-- ===== src/Handle.antt =====
-- The cache of RPC clients by address in handle.h and handle.cc. The records stand in a store, by
-- number, so that a record that was deleted can be told from one that is there: `none` is a program
-- that follows a pointer to a deleted record. `C` is what a client of rpc/rpc.h is.
use simple_distributed_files.Prelude.{
  ℕ, ◌+◌, ◌-◌, Bool, true, false, not, ◌&&◌, List, [], ◌∷◌, Option, none, some, Bytes, str_eq, ◌==◌,
  if◌then◌else◌,
}
pub mod History
mod Records
pub mod Counted
mod Tests

pub record Hinfo (C : Type 0) : Type 0 where
  pub cl : Option C
  pub refcnt : ℕ
  pub del : Bool
  pub m : Bytes

pub record HandleMgr (C : Type 0) : Type 0 where
  pub hmap : Bytes → Option ℕ
  pub store : ℕ → Option (Hinfo C)
  pub next : ℕ

abbrev pub map_set : Bytes → Option ℕ → (Bytes → Option ℕ) → Bytes → Option ℕ
map_set m v f x = if str_eq x m then v else f x

module _ {C : Type 0} where
  abbrev pub store_set : ℕ → Option (Hinfo C) → (ℕ → Option (Hinfo C)) → ℕ → Option (Hinfo C)
  store_set p v f x = if x == p then v else f x

  abbrev pub handle_mgr_new : HandleMgr C
  handle_mgr_new = record { hmap = λ m. none; store = λ p. none; next = 0 }

  abbrev pub hinfo_new : Bytes → Hinfo C
  hinfo_new m = record { cl = none; refcnt = 1; del = false; m = m }

  -- `get_handle` where the address is known: no pointer for a record that is to be deleted.
  unfoldable pub get_known : ℕ → HandleMgr C → Option (Hinfo C) → Option (HandleMgr C × Option ℕ)
  get_known p s none = none
  get_known p s (some h) =
      if h.del
      then some (s, none)
      else some (
        record s { store = store_set p (some (record h { refcnt = h.refcnt + 1 })) s.store },
        some p,
      )

  abbrev pub get_new : Bytes → HandleMgr C → HandleMgr C
  get_new m s = record {
    hmap = map_set m (some s.next) s.hmap;
    store = store_set s.next (some (hinfo_new m)) s.store;
    next = s.next + 1;
  }

  unfoldable pub get_found : Bytes → HandleMgr C → Option ℕ → Option (HandleMgr C × Option ℕ)
  get_found m s none = some (get_new m s, some s.next)
  get_found m s (some p) = get_known p s (s.store p)

  unfoldable pub get_handle : Bytes → HandleMgr C → Option (HandleMgr C × Option ℕ)
  get_handle m s = get_found m s (s.hmap m)

  -- `delete_handle_wo` where the address is known; the client is cancelled and deleted with the
  -- record.
  unfoldable pub delete_known : Bytes → ℕ → HandleMgr C → Option (Hinfo C) → Option (HandleMgr C)
  delete_known m p s none = none
  delete_known m p s (some h) =
      if h.refcnt == 0
      then some (record s { hmap = map_set m none s.hmap; store = store_set p none s.store })
      else some (record s { store = store_set p (some (record h { del = true })) s.store })

  unfoldable pub delete_found : Bytes → HandleMgr C → Option ℕ → Option (HandleMgr C)
  delete_found m s none = some s
  delete_found m s (some p) = delete_known m p s (s.store p)

  unfoldable pub delete_handle_wo : Bytes → HandleMgr C → Option (HandleMgr C)
  delete_handle_wo m s = delete_found m s (s.hmap m)

  unfoldable pub done_at : ℕ → HandleMgr C → Option (Hinfo C) → Option (HandleMgr C)
  done_at p s none = none
  done_at p s (some h) =
      let s' : HandleMgr C = record s {
        store = store_set p (some (record h { refcnt = h.refcnt - 1 })) s.store;
      } in
      if h.refcnt - 1 == 0 && h.del then delete_handle_wo h.m s' else some s'

  unfoldable pub done_handle : ℕ → HandleMgr C → Option (HandleMgr C)
  done_handle p s = done_at p s (s.store p)

  -- `safebind` of a record, with the client that `bind` would give, if it succeeds.
  unfoldable pub bind_at :
      Option C → ℕ → HandleMgr C → Option (Hinfo C) → Option (HandleMgr C × Option C)
  bind_at made p s none = none
  bind_at made p s (some h) = if h.del then some (s, none) else elim h.cl [
    | some c ↦ some (s, some c)
    | none ↦ elim made [
      | none ↦
          some (record s { store = store_set p (some (record h { del = true })) s.store }, none)
      | some c ↦
          some (record s { store = store_set p (some (record h { cl = some c })) s.store }, some c)
    ]
  ]

  -- `safebind` of a handle that may have no record.
  unfoldable pub safebind : Option C → Option ℕ → HandleMgr C → Option (HandleMgr C × Option C)
  safebind made none s = some (s, none)
  safebind made (some p) s = bind_at made p s (s.store p)
