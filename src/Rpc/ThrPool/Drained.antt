-- ===== src/Rpc/ThrPool/Drained.antt =====
-- The destructor of the pool of threads (rpc/thr_pool.cc): its threads end, and leave no job.
use simple_distributed_files.Prelude.{
  ℕ, zero, suc, ◌<◌, ◌≡◌, refl, sym, ap, ◌∙◌, ◌⊎◌, inl, inr, Bool, List, [], ◌∷◌, ◌++◌, append-nil,
  Option, none, some, arith, ◌+◌, length,
}
use simple_distributed_files.Rpc.Fifo.{enq}
use simple_distributed_files.Rpc.ThrPool.{
  take_job, Pooled, Turn, Closing, pooled_new, after_take, do_worker, poison, turn_all, close_all,
}
use simple_distributed_files.Rpc.ThrPool.Pending.{
  pending, IsPooled, IsSome, take_first, turn_all-IsInUse, close_all-IsSome, new-IsInUse,
}
use native.Mathlib.Decide.{dec_lt}

module _ {A : Type 0} where
  pending-length : (js : List A) (k : ℕ) → length (pending js k) ≡ length js + k
  pending-length [] zero = refl
  pending-length [] (suc k) = omega (arith, pending-length [] k)
  pending-length (j ∷ js) k = omega (arith, pending-length js k)

  -- A pass of a thread takes something from the queue, or the destructor puts a pill.
  abbrev pub CanGoOn : Pooled A → Type 0
  CanGoOn s =
      (suc (length (do_worker s).pool.jobq.q) ≡ length s.pool.jobq.q)
      ⊎ ((poison s).pills ≡ suc s.pills)

  passes :
      (n : ℕ) (s : Pooled A)
      → s.pool.nthreads ≡ n
      → s.ended < n
      → do_worker s ≡ after_take s (take_job s.pool)
  unfolding do_worker
  passes n s t less = ground (arith, t, less)

  takes_one :
      (n : ℕ) (j : Option A) (q : List (Option A)) (s : Pooled A)
      → s.pool.jobq.q ≡ j ∷ q
      → s.pool.nthreads ≡ n
      → s.ended < n
      → suc (length (do_worker s).pool.jobq.q) ≡ length s.pool.jobq.q
  takes_one n none q s e t less =
      ap (λ w. suc (length w.pool.jobq.q))
        (passes n s t less ∙ ap (after_take s) (take_first s.pool none q e))
      ∙ sym (ap length e)
  takes_one n (some j) q s e t less =
      ap (λ w. suc (length w.pool.jobq.q))
        (passes n s t less ∙ ap (after_take s) (take_first s.pool (some j) q e))
      ∙ sym (ap length e)

  puts_pill :
      (n : ℕ) (s : Pooled A)
      → s.pool.jobq.q ≡ []
      → s.pool.nthreads ≡ n
      → s.pills < n
      → (poison s).pills ≡ suc s.pills
  unfolding poison enq
  puts_pill n s e t less = ground (arith, e, t, less)

  goes_on :
      (n : ℕ) (js : List A) (k : ℕ) (s : Pooled A) → IsPooled n js k s → s.ended < n → CanGoOn s
  goes_on n [] zero s i less = inr (puts_pill n s i.queue i.threads (omega (arith, i.count, less)))
  goes_on n [] (suc k) s i less = inl (takes_one n none (pending [] k) s i.queue i.threads less)
  goes_on n (j ∷ js) k s i less = inl (takes_one n (some j) (pending js k) s i.queue i.threads less)

  ended_or_not :
      (n : ℕ) (s : Pooled A)
      → 0 < n
      → IsSome n s
      → ((s.ended ≡ n) × ((s.taken ≡ s.accepted) × (length s.pool.jobq.q ≡ 0)))
        ⊎ ((s.ended < n) × CanGoOn s)
  ended_or_not n s pos i =
      let long = ap length i.sound.queue ∙ pending-length i.js i.k in
      elim (dec_lt s.ended n) [
        | yes less ↦ inr (less, goes_on n i.js i.k s i.sound less)
        | no over ↦ elim i.sound.last [
          | inl none_ended ↦ absurd (omega (arith, over, none_ended, pos))
          | inr none_left ↦ inl (
            omega (arith, over, i.sound.count, i.sound.within),
            (
              sym (i.sound.order ∙ ap (λ x. s.taken ++ x) none_left ∙ append-nil s.taken),
              omega (arith, long, ap length none_left, over, i.sound.count, i.sound.within),
            ),
          )
        ]
      ]

-- The pool of at least one thread, used and then destroyed, in whatever order its threads, those
-- that add jobs and the destructor take their turns, with nobody adding a job once the destructor
-- runs: either all threads have ended, and the jobs that were accepted were taken, each once and in
-- their order, with nothing left in the queue; or fewer have ended, and then the next pass of a
-- thread takes something from the queue, or the next look of the destructor puts a pill.
pub close_all-drained :
    {A : Type 0} (n : ℕ) (blocking : Bool) (ts : List (Turn A)) (cs : List Closing)
    → 0 < n
    → let s = close_all cs (turn_all ts (pooled_new n blocking)) in
      ((s.ended ≡ n) × ((s.taken ≡ s.accepted) × (length s.pool.jobq.q ≡ 0)))
      ⊎ ((s.ended < n) × CanGoOn s)
close_all-drained n blocking ts cs pos =
    let i = turn_all-IsInUse n ts (pooled_new n blocking) (new-IsInUse n blocking) in
    ended_or_not n (close_all cs (turn_all ts (pooled_new n blocking))) pos (
      close_all-IsSome n cs (turn_all ts (pooled_new n blocking))
        (record { js = i.js; k = 0; sound = i.sound }))
