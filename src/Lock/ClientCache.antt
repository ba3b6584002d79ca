-- ===== src/Lock/ClientCache.antt =====
-- `lock_client_cache` of lock_client_cache.cc and lock_client_cache.h: the record of a cached lock
-- and what each stretch of code under `sync_root` does to it.
pub mod Threads
pub mod Invariant
pub mod Kept
use simple_distributed_files.Prelude.{
  ℕ, ◌+◌, ◌-◌, Bool, true, false, not, ◌&&◌, Option, none, some, ◌==◌, if◌then◌else◌, Dict, lookup,
  insert,
}

-- `lock_info`. A `holder` is a thread's id, or 0 (FREE).
pub record LockInfo : Type 0 where
  pub acquiring : Bool
  pub owned : Bool
  pub revoked : Bool
  pub awaiting_lock : ℕ
  pub holder : ℕ

abbrev pub free : ℕ
free = 0

-- The record that `acquire` makes; `new lock_info()` clears the field that it does not set.
abbrev pub lock_new : LockInfo
lock_new = record {
  acquiring = false;
  owned = false;
  revoked = false;
  awaiting_lock = 0;
  holder = free;
}

-- The first part of `acquire`.
unfoldable pub find_lock : ℕ → Dict LockInfo → Dict LockInfo
find_lock lid d = elim (lookup lid d) [ none ↦ insert lid lock_new d | some l ↦ d ]

-- The second part: the thread counts itself in, and goes to the server if this is true.
unfoldable pub count_in : LockInfo → LockInfo × Bool
count_in l = (record l { awaiting_lock = l.awaiting_lock + 1 }, not l.owned && not l.acquiring)

-- `acquire_lock` before its call, which is made if this is true.
unfoldable pub begin_call : LockInfo → LockInfo × Bool
begin_call l =
    if not l.acquiring && not l.owned then (record l { acquiring = true }, true) else (l, false)

-- `acquire_lock` after its call; `ok` is whether the server answered OK.
unfoldable pub end_call : Bool → LockInfo → LockInfo
end_call ok l =
    if l.owned
    then l
    else if ok
    then record l { acquiring = false; owned = true }
    else record l { acquiring = true; owned = false }

-- The last part of `acquire`, once the lock is owned: `none` while it is not free.
unfoldable pub take_lock : ℕ → LockInfo → Option LockInfo
take_lock tid l =
    if l.holder == free
    then some (record l { holder = tid; awaiting_lock = l.awaiting_lock - 1 })
    else none

-- `release`, and whether the lock goes back to the server.
unfoldable pub release : LockInfo → LockInfo × Bool
release l =
    if l.awaiting_lock == 0 && l.revoked
    then (record l { owned = false; revoked = false; acquiring = false; holder = free }, true)
    else (record l { holder = free }, false)

-- `revoke_handler` at a lock that has a record, and whether the lock goes back to the server.
unfoldable pub revoke : LockInfo → LockInfo × Bool
revoke l =
    if l.holder == free && l.awaiting_lock == 0 && not l.acquiring
    then (record l { owned = false; revoked = false }, true)
    else (record l { revoked = true }, false)

-- The record that `revoke_handler` makes.
abbrev pub revoked_new : LockInfo
revoked_new = record {
  acquiring = false;
  owned = true;
  revoked = true;
  awaiting_lock = 0;
  holder = free;
}

unfoldable pub revoke_handler : ℕ → Dict LockInfo → Dict LockInfo × Bool
revoke_handler lid d = elim (lookup lid d) [
  | none ↦ (insert lid revoked_new d, false)
  | some l ↦ (insert lid (revoke l).0 d, (revoke l).1)
]

abbrev pub granted : LockInfo → LockInfo
granted l = record l { acquiring = false; owned = true }

-- `none` is a pointer that `lock_list[lid]` made null, and that is followed.
unfoldable pub retry_handler : ℕ → Dict LockInfo → Option (Dict LockInfo)
retry_handler lid d = elim (lookup lid d) [ none ↦ none | some l ↦ some (insert lid (granted l) d) ]
