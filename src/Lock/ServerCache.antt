-- ===== src/Lock/ServerCache.antt =====
-- `lock_server_cache` of lock_server_cache.h and lock_server_cache.cc. Each handler runs under
-- `sync_root`, so it is one step; what it sends after the lock is given up is part of its result.
use simple_distributed_files.Prelude.{
  ℕ, Bool, true, false, not, ◌&&◌, List, [], ◌∷◌, ◌++◌, Option, none, some, Bytes, codes, str_eq,
  if◌then◌else◌, ◌==◌, Dict, lookup, insert, length,
}

-- The holder of a lock that nobody holds: FREE.
abbrev pub free : Bytes
free = codes "MMMMM"

-- `cached_lock_info`, less its condition variable, which nothing uses.
pub record CachedLockInfo : Type 0 where
  pub holder : Bytes
  pub revoked : Bool
  pub queue : List Bytes

pub record RevokeRequest : Type 0 where
  pub holder : Bytes
  pub lid : ℕ

pub record Server : Type 0 where
  pub nacquire : ℕ
  pub lock_list : Dict CachedLockInfo
  pub revoke_queue : List RevokeRequest

pub data Status : Type 0 where
  ok retry : Status

abbrev pub server_new : ℕ → Server
server_new nacquire = record { nacquire = nacquire; lock_list = []; revoke_queue = [] }

-- The part of `acquire` that has found the lock.
unfoldable pub acquire_lock : Bytes → CachedLockInfo → CachedLockInfo × Status
acquire_lock id l =
    if str_eq l.holder free
    then (record l { holder = id }, ok)
    else (record l { queue = l.queue ++ id ∷ [] }, retry)

unfoldable pub acquire : ℕ → Bytes → Server → Server × Status
acquire lid id s = elim (lookup lid s.lock_list) [
  | none ↦ (
    record s {
      lock_list = insert lid (record { holder = id; revoked = false; queue = [] }) s.lock_list;
    },
    ok,
  )
  | some l ↦
      let (l', status) = acquire_lock id l in
      (record s { lock_list = insert lid l' s.lock_list }, status)
]

-- The part of `release` that has found the lock, over its queue, with the client that is sent
-- `retry`.
unfoldable pub hand_over : List Bytes → CachedLockInfo → CachedLockInfo × Option Bytes
hand_over [] l = (record l { revoked = false; holder = free }, none)
hand_over (id ∷ rest) l = (record l { revoked = false; holder = id; queue = rest }, some id)

unfoldable pub release_lock : CachedLockInfo → CachedLockInfo × Option Bytes
release_lock l = hand_over l.queue l

-- The client's name is only printed. `none` is the null pointer of a lock that was never seen.
unfoldable pub release : ℕ → Bytes → Server → Option (Server × Option Bytes)
release lid id s = elim (lookup lid s.lock_list) [
  | none ↦ none
  | some l ↦
      let (l', told) = release_lock l in
      some (record s { lock_list = insert lid l' s.lock_list }, told)
]

unfoldable pub stat : ℕ → Server → ℕ
stat lid s = s.nacquire

-- The client that `revoke` calls.
unfoldable pub revoke : ℕ → Server → Option Bytes
revoke lid s = elim (lookup lid s.lock_list) [ none ↦ none | some l ↦ some l.holder ]

-- The test of `enforcer`: clients wait, and the holder has not been asked.
unfoldable pub is_due : CachedLockInfo → Bool
is_due l = not (length l.queue == 0) && not l.revoked

-- One pass of `enforcer` over the locks: the marked locks, and the requests in their order.
unfoldable pub enforce_locks : Dict CachedLockInfo → Dict CachedLockInfo × List RevokeRequest
enforce_locks [] = ([], [])
enforce_locks ((lid, l) ∷ d) =
    let (d', requests) = enforce_locks d in
    if is_due l
    then (
      (lid, record l { revoked = true }) ∷ d',
      record { holder = l.holder; lid = lid } ∷ requests,
    )
    else ((lid, l) ∷ d', requests)

unfoldable pub enforcer : Server → Server
enforcer s =
    let (d, requests) = enforce_locks s.lock_list in
    record s { lock_list = d; revoke_queue = s.revoke_queue ++ requests }

-- One pass of `revoker` empties the queue, and sends a revoke for each request.
unfoldable pub revoker : Server → Server × List RevokeRequest
revoker s = (record s { revoke_queue = [] }, s.revoke_queue)
