-- ===== src/Lock/ClientCache/Threads.antt =====
-- The threads of one client around one lock of lock_client_cache.cc, each stretch of code under
-- `sync_root` one step, with the server's answers and calls in any order.
use simple_distributed_files.Prelude.{
  ℕ, ◌+◌, ◌-◌, Bool, true, false, not, none, some, List, [], ◌∷◌, ◌==◌, if◌then◌else◌,
}
use simple_distributed_files.Lock.ClientCache.{
  LockInfo, lock_new, revoked_new, count_in, begin_call, end_call, take_lock, release, revoke,
  granted,
}

-- How many threads of `acquire` are before `acquire_lock`, in its call, before the wait for
-- `owned`, and in the wait for `holder`; the threads that have the lock; and how often the lock went
-- back to the server.
pub record Threads : Type 0 where
  pub lock : LockInfo
  pub submits : ℕ
  pub calls : ℕ
  pub waits : ℕ
  pub wants : ℕ
  pub inside : List ℕ
  pub returns : ℕ

abbrev pub threads_new : Threads
threads_new = record {
  lock = lock_new;
  submits = 0;
  calls = 0;
  waits = 0;
  wants = 0;
  inside = [];
  returns = 0;
}

-- What makes the record of a lock, which no call takes away again: an `acquire`, or a
-- `revoke_handler`, where the server asks for a lock that the client has no record of. A
-- `retry_handler` that comes first follows a null pointer.
pub data First : Type 0 where
  by_acquire by_revoke : First

unfoldable pub recorded : First → Threads
recorded by_acquire = record threads_new { lock = lock_new }
recorded by_revoke = record threads_new { lock = revoked_new }

pub data Turn : Type 0 where
  enters submitted : Turn
  answered : Bool → Turn
  wakes takes leaves : ℕ → Turn
  revokes retries : Turn

abbrev pub take_out : ℕ → List ℕ → List ℕ
take_out x [] = []
take_out x (y ∷ ys) = if x == y then take_out x ys else y ∷ take_out x ys

abbrev pub is_in : ℕ → List ℕ → Bool
is_in x [] = false
is_in x (y ∷ ys) = if x == y then true else is_in x ys

-- One step. A turn that no thread is there for changes nothing; nor does a thread that stays in its
-- wait.
unfoldable pub turn : Turn → Threads → Threads
turn enters t =
    let c = count_in t.lock in
    if c.1
    then record t { lock = c.0; submits = t.submits + 1 }
    else record t { lock = c.0; waits = t.waits + 1 }
turn submitted t =
    let c = begin_call t.lock in
    if t.submits == 0
    then t
    else if c.1
    then record t { lock = c.0; submits = t.submits - 1; calls = t.calls + 1 }
    else record t { lock = c.0; submits = t.submits - 1; waits = t.waits + 1 }
turn (answered ok) t =
    if t.calls == 0
    then t
    else record t { lock = end_call ok t.lock; calls = t.calls - 1; waits = t.waits + 1 }
turn (wakes tid) t =
    if t.waits == 0 then t else if not t.lock.owned then t else elim (take_lock tid t.lock) [
      | none ↦ record t { waits = t.waits - 1; wants = t.wants + 1 }
      | some l ↦ record t { lock = l; waits = t.waits - 1; inside = tid ∷ t.inside }
    ]
turn (takes tid) t = if t.wants == 0 then t else elim (take_lock tid t.lock) [
  | none ↦ t
  | some l ↦ record t { lock = l; wants = t.wants - 1; inside = tid ∷ t.inside }
]
turn (leaves tid) t =
    let r = release t.lock in
    if is_in tid t.inside
    then record t {
      lock = r.0;
      inside = take_out tid t.inside;
      returns = if r.1 then t.returns + 1 else t.returns;
    }
    else t
turn revokes t =
    let r = revoke t.lock in
    record t { lock = r.0; returns = if r.1 then t.returns + 1 else t.returns }
turn retries t = record t { lock = granted t.lock }

unfoldable pub turns : List Turn → Threads → Threads
turns [] t = t
turns (e ∷ es) t = turns es (turn e t)
