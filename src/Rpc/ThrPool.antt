-- ===== src/Rpc/ThrPool.antt =====
-- The pool of threads of rpc/thr_pool.h and rpc/thr_pool.cc. A job is what is to be called; the
-- one with no function is the poison pill, `none`.
use simple_distributed_files.Prelude.{
  ℕ, zero, suc, ◌≤◌, ◌<◌, ◌≡◌, refl, sym, ap, ◌∙◌, subst, ◌⊎◌, inl, inr, Bool, true, false, ◌||◌,
  List, [], ◌∷◌, ◌++◌, append_assoc, Option, none, some, arith, ◌*◌, ◌+◌, ltb, ◌==◌, if◌then◌else◌,
  length, length-append, replicate, Bool-cases,
}
use simple_distributed_files.Rpc.Fifo.{
  Fifo, fifo_new, Tried, done, gives_up, waits, enq, deq, deq_empty, deq_first,
}
pub mod Pending
pub mod Drained

pub record ThrPool (A : Type 0) : Type 0 where
  pub nthreads : ℕ
  pub blockadd : Bool
  pub jobq : Fifo (Option A)

module _ {A : Type 0} where
  abbrev pub thr_pool_new : ℕ → Bool → ThrPool A
  thr_pool_new sz blocking = record {
    nthreads = sz;
    blockadd = blocking;
    jobq = fifo_new (100 * sz);
  }

  unfoldable pub add_job : A → ThrPool A → Tried (Option A)
  add_job j p = enq (some j) p.blockadd p.jobq

  -- `none` while it waits; the function returns false for the pill.
  unfoldable pub take_job : ThrPool A → Option (ThrPool A × Option A)
  take_job p = elim (deq p.jobq) [ none ↦ none | some (q, j) ↦ some (record p { jobq = q }, j) ]

-- A pool with the jobs that it accepted and those that its threads took, the latest last; how many
-- threads have ended, and how many pills the destructor has put.
pub record Pooled (A : Type 0) : Type 0 where
  pub pool : ThrPool A
  pub accepted : List A
  pub taken : List A
  pub ended : ℕ
  pub pills : ℕ

-- A turn while the pool is in use, and one while it is destroyed.
pub data Turn (A : Type 0) : Type 0 where
  adds : A → Turn A
  works : Turn A

pub data Closing : Type 0 where
  poisons last_works : Closing

module _ {A : Type 0} where
  abbrev pub pooled_new : ℕ → Bool → Pooled A
  pooled_new sz blocking = record {
    pool = thr_pool_new sz blocking;
    accepted = [];
    taken = [];
    ended = 0;
    pills = 0;
  }

  abbrev pub after_add : A → Pooled A → Tried (Option A) → Pooled A
  after_add j s (done q) = record s {
    pool = record s.pool { jobq = q };
    accepted = s.accepted ++ j ∷ [];
  }
  after_add j s gives_up = s
  after_add j s waits = s

  abbrev pub after_take : Pooled A → Option (ThrPool A × Option A) → Pooled A
  after_take s none = s
  after_take s (some (p, some j)) = record s { pool = p; taken = s.taken ++ j ∷ [] }
  after_take s (some (p, none)) = record s { pool = p; ended = suc s.ended }

  -- One pass of a thread that is left.
  unfoldable pub do_worker : Pooled A → Pooled A
  do_worker s = if ltb s.ended s.pool.nthreads then after_take s (take_job s.pool) else s

  abbrev pub after_poison : Pooled A → Tried (Option A) → Pooled A
  after_poison s (done q) = record s { pool = record s.pool { jobq = q }; pills = suc s.pills }
  after_poison s gives_up = s
  after_poison s waits = s

  -- One look of the destructor, whose loop has a round for each thread.
  unfoldable pub poison : Pooled A → Pooled A
  poison s = if ltb s.pills s.pool.nthreads then after_poison s (enq none true s.pool.jobq) else s

  unfoldable pub turn : Turn A → Pooled A → Pooled A
  turn (adds j) s = after_add j s (add_job j s.pool)
  turn works s = do_worker s

  unfoldable pub turn_all : List (Turn A) → Pooled A → Pooled A
  turn_all [] s = s
  turn_all (t ∷ ts) s = turn_all ts (turn t s)

  unfoldable pub close : Closing → Pooled A → Pooled A
  close poisons s = poison s
  close last_works s = do_worker s

  unfoldable pub close_all : List Closing → Pooled A → Pooled A
  close_all [] s = s
  close_all (c ∷ cs) s = close_all cs (close c s)
