-- ===== src/Lock/Tests.antt =====
-- Runs of the lock server, and the theorems about it at concrete inputs.
use simple_distributed_files.Prelude.{
  Has, ◌↔◌, ◌≤◌, ℕ, ◌≡◌, refl, true, false, inl, arith, List, [], ◌∷◌, ◌++◌, some, Bytes, lookup,
  str_eq,
}
use simple_distributed_files.Lock.ServerCache.{
  CachedLockInfo, RevokeRequest, Server, server_new, acquire, acquire_lock, release, release_lock,
  hand_over, enforcer,
}
use simple_distributed_files.Lock.Queueing.{AllSound, AllSound-insert, turns as queue_of}
use simple_distributed_files.Lock.History.{
  Request, acquires, releases, serve, serve_all, queue_run, serve_all-queue_run,
}
use simple_distributed_files.Lock.Enforcer.{marked, IsFor, times_asked, enforcer_asks}
use simple_distributed_files.Lock.ClientCache
use simple_distributed_files.Lock.ClientCache.{
  LockInfo, count_in, begin_call, end_call, take_lock, revoke, find_lock, revoke_handler,
}
use simple_distributed_files.Lock.ClientCache.Threads.{
  Turn, enters, submitted, answered, wakes, leaves, revokes, by_acquire, by_revoke, recorded, turn,
  turns,
}
use simple_distributed_files.Lock.ClientCache.Kept.{
  visit, lock_kept, returned_unused, revoked_unknown,
}
use simple_distributed_files.Lock.Plain
use simple_distributed_files.Lock.Mutex.{seen_owners, own_all, owners, serve_all-own_all}

abbrev ann : Bytes
ann = 97 ∷ []

abbrev bob : Bytes
bob = 98 ∷ []

-- Ann holds lock 5 and bob waits.
abbrev held : CachedLockInfo
held = record { holder = ann; revoked = false; queue = bob ∷ [] }

abbrev server : Server
server = record (server_new 0) { lock_list = (5, held) ∷ [] }

free-AllSound : AllSound []
free-AllSound lid l h = absurd (cc h)

held-AllSound : AllSound server.lock_list
held-AllSound =
    AllSound-insert 5 held [] free-AllSound
      (record { waits = λ e. absurd (cc e); asked = λ e. absurd (cc e); named = ((λ e. cc e), tt) })

abbrev day : List Request
day = acquires 5 ann ∷ acquires 5 bob ∷ acquires 6 bob ∷ releases 5 ann ∷ []

abbrev after_day : Server
after_day = record (server_new 0) {
  lock_list =
      (5, record { holder = bob; revoked = false; queue = [] })
      ∷ (6, record { holder = bob; revoked = false; queue = [] })
      ∷ [];
}

serve_all-queue_run_example :
    AllSound after_day.lock_list
    × ((λ j. queue_of j after_day) ≡ queue_run day (λ j. queue_of j (server_new 0)))
unfolding serve serve_all acquire acquire_lock release release_lock hand_over str_eq
serve_all-queue_run_example =
    serve_all-queue_run day (server_new 0) after_day free-AllSound
      ((λ e. cc e), ((λ e. cc e), ((λ e. cc e), (tt, tt)))) refl

abbrev kept : Server
kept = record (server_new 0) {
  lock_list = (5, record { holder = ann; revoked = false; queue = [] }) ∷ [];
}

enforcer_asks_example :
    ((j : ℕ) → lookup j (enforcer server).lock_list ≡ marked (lookup j server.lock_list))
    × ((requests : List RevokeRequest) × ((enforcer server).revoke_queue
          ≡ server.revoke_queue ++ requests)
        × ((r : RevokeRequest) → Has r requests ↔ IsFor server.lock_list r)
        × ((j : ℕ) → times_asked j requests ≤ 1))
    × ((enforcer (enforcer server)).revoke_queue ≡ (enforcer server).revoke_queue)
enforcer_asks_example = enforcer_asks server (refl, tt)

-- Thread 7 gets the lock from the server, and the server asks for it back.
abbrev morning : List Turn
morning = enters ∷ submitted ∷ answered true ∷ wakes 7 ∷ revokes ∷ []

lock_kept_example :
    ((turns morning (recorded by_acquire)).inside ≡ 7 ∷ [])
    × ((turns morning (recorded by_acquire)).lock.holder ≡ 7)
    × ((turns morning (recorded by_acquire)).lock.owned ≡ true)
unfolding turns turn count_in begin_call end_call take_lock revoke recorded
lock_kept_example = lock_kept by_acquire morning 7 (tt, (tt, (tt, (refl, (tt, tt))))) (inl refl)

-- The server asked for the lock before the client knew it; thread 8 then comes and leaves.
visited : (turns (visit 8) (recorded by_revoke)).returns ≡ 1
unfolding turns turn count_in take_lock revoke recorded ClientCache.release
visited = refl

returned_unused_example :
    ((turn (leaves 7) (turns morning (recorded by_acquire))).inside ≡ [])
    × ((turn (leaves 7) (turns morning (recorded by_acquire))).lock.awaiting_lock ≡ 0)
unfolding turns turn count_in begin_call end_call take_lock revoke recorded ClientCache.release
returned_unused_example =
    returned_unused by_acquire morning (leaves 7) (tt, (tt, (tt, (refl, (tt, tt)))))
      (λ e. omega (arith, e))

revoked_unknown_example :
    (l : LockInfo) × (lookup 5 (find_lock 5 (revoke_handler 5 []).0) ≡ some l)
    × ((count_in l).1 ≡ false)
    × ((count_in l).0.owned ≡ true)
    × (take_lock 7 (count_in l).0 ≡ some (record l { holder = 7 }))
revoked_unknown_example = revoked_unknown 5 7 [] refl

abbrev turns_taken : List Plain.Request
turns_taken = Plain.acquires 3 5 ∷ Plain.releases 4 5 ∷ Plain.releases 3 5 ∷ Plain.acquires 4 5 ∷ []

serve_all-own_all_example :
    seen_owners (Plain.serve_all turns_taken Plain.server_new)
    ≡ own_all turns_taken (owners Plain.server_new)
serve_all-own_all_example =
    serve_all-own_all turns_taken Plain.server_new (refl, (refl, (refl, (refl, tt))))
