-- ===== src/Lock/ClientCache/Kept.antt =====
-- What holds whatever the threads of a client and the server do: lock_client_cache.cc gives a lock
-- to one thread at a time, keeps it while it is used, and does not forget that it was asked back.
use simple_distributed_files.Prelude.{
  ℕ, ◌≡◌, ◌≢◌, inl, inr, refl, sym, ap, ◌∙◌, subst, true, false, none, some, List, [], ◌∷◌, ◌==◌,
  arith, Bool-cases, All, Has, Dict, lookup, insert, lookup-insert, ==_iff,
}
use simple_distributed_files.Lock.ClientCache.{
  LockInfo, count_in, take_lock, release, revoke, revoke_handler, revoked_new, find_lock,
}
use simple_distributed_files.Lock.ClientCache.Threads.{
  Threads, First, recorded, Turn, enters, submitted, answered, wakes, takes, leaves, revokes,
  retries, turn, turns,
}
use simple_distributed_files.Lock.ClientCache.Invariant.{
  IsKept, IsThread, left_alone, turns-IsKept, recorded-IsKept,
}

holder_lem :
    (f : First) (tid : ℕ) (t : Threads)
    → IsKept f t
    → Has tid t.inside
    → (t.inside ≡ tid ∷ []) × (t.lock.holder ≡ tid) × (t.lock.owned ≡ true)
holder_lem f tid t k h = elim (Bool-cases (t.lock.holder == 0)) [
  | inl idle ↦ absurd (subst (Has tid) {y = []} (k.alone ∙ rw idle refl) h)
  | inr held ↦
      let e : t.inside ≡ t.lock.holder ∷ [] = k.alone ∙ rw held refl in
      elim (subst (Has tid) e h) [
        | inl same ↦ (e ∙ ap (λ x. x ∷ []) (sym same), sym same, k.used held)
        | inr never ↦ absurd never
      ]
]

-- No thread's id is FREE. Whether an `acquire` or a revocation made the lock's record, and whatever
-- the order in which threads run and the server answers, revokes and retries: a thread that `acquire` let in is the only one inside until it leaves, is the one
-- recorded as the holder, and the client owns the lock meanwhile.
pub lock_kept :
    (f : First) (es : List Turn) (tid : ℕ)
    → All IsThread es
    → Has tid (turns es (recorded f)).inside
    → ((turns es (recorded f)).inside ≡ tid ∷ [])
      × ((turns es (recorded f)).lock.holder ≡ tid)
      × ((turns es (recorded f)).lock.owned ≡ true)
lock_kept f es tid h i =
    holder_lem f tid (turns es (recorded f)) (turns-IsKept f es (recorded f) h (recorded-IsKept f))
      i

leaves_returns :
    (f : First) (tid : ℕ) (t : Threads)
    → IsKept f t
    → (turn (leaves tid) t).returns ≢ t.returns
    → ((turn (leaves tid) t).inside ≡ []) × ((turn (leaves tid) t).lock.awaiting_lock ≡ 0)
unfolding turn release
leaves_returns f tid t k r = (ground (arith, r, left_alone f tid t k), ground (arith, r))

revokes_returns :
    (f : First) (t : Threads)
    → IsKept f t
    → (turn revokes t).returns ≢ t.returns
    → ((turn revokes t).inside ≡ []) × ((turn revokes t).lock.awaiting_lock ≡ 0)
unfolding turn revoke
revokes_returns f t k r = (ground (arith, r, k.alone), ground (arith, r))

step_returns :
    (f : First) (e : Turn) (t : Threads)
    → IsKept f t
    → (turn e t).returns ≢ t.returns
    → ((turn e t).inside ≡ []) × ((turn e t).lock.awaiting_lock ≡ 0)
step_returns f (leaves tid) t k r = leaves_returns f tid t k r
step_returns f revokes t k r = revokes_returns f t k r
step_returns f enters t k r = absurd (r (unfold turn in ground arith))
step_returns f submitted t k r = absurd (r (unfold turn in ground arith))
step_returns f (answered ok) t k r = absurd (r (unfold turn in ground arith))
step_returns f (wakes tid) t k r = absurd (r (unfold turn take_lock in ground arith))
step_returns f (takes tid) t k r = absurd (r (unfold turn take_lock in ground arith))
step_returns f retries t k r = absurd (r (unfold turn in refl))

-- After any history, in which no thread's id is FREE, a step that gives the lock back to the server
-- leaves it with no thread inside and none that waits for it.
pub returned_unused :
    (f : First) (es : List Turn) (e : Turn)
    → All IsThread es
    → (turn e (turns es (recorded f))).returns ≢ (turns es (recorded f)).returns
    → ((turn e (turns es (recorded f))).inside ≡ [])
      × ((turn e (turns es (recorded f))).lock.awaiting_lock ≡ 0)
returned_unused f es e h r =
    step_returns f e (turns es (recorded f)) (turns-IsKept f es (recorded f) h (recorded-IsKept f))
      r

-- A thread comes in, takes the lock and leaves.
abbrev pub visit : ℕ → List Turn
visit next = enters ∷ wakes next ∷ leaves next ∷ []

-- A revocation of a lock that the client has no record of hands the lock out: the next thread that
-- acquires it makes no call to the server and takes it.
pub revoked_unknown :
    (lid tid : ℕ) (d : Dict LockInfo)
    → lookup lid d ≡ none
    → (l : LockInfo) × (lookup lid (find_lock lid (revoke_handler lid d).0) ≡ some l)
      × ((count_in l).1 ≡ false)
      × ((count_in l).0.owned ≡ true)
      × (take_lock tid (count_in l).0 ≡ some (record l { holder = tid }))
unfolding find_lock revoke_handler count_in take_lock
revoked_unknown lid tid d e =
    let here : lookup lid (insert lid revoked_new d) ≡ some revoked_new =
      lookup-insert lid lid revoked_new d ∙ rw ((==_iff lid lid).1 refl) refl in
    (revoked_new, ground (arith, e, here), refl, refl, refl)
