-- ===== src/Rpc/ThrPool/Pending.antt =====
-- What is in the queue of a pool of threads (rpc/thr_pool.cc) while it is used and destroyed.
use simple_distributed_files.Prelude.{
  ℕ, zero, suc, ◌≤◌, ◌≡◌, refl, sym, ap, ◌∙◌, subst, ◌⊎◌, inl, inr, Bool, true, List, [], ◌∷◌, ◌++◌,
  append_assoc, Option, none, some, arith, ◌+◌, ltb, Bool-cases,
}
use simple_distributed_files.Rpc.Fifo.{Fifo, done, gives_up, waits, enq, deq_empty, deq_first}
use simple_distributed_files.Rpc.ThrPool.{
  ThrPool, add_job, take_job, Pooled, Turn, adds, works, Closing, poisons, last_works, pooled_new,
  after_add, after_take, do_worker, poison, turn, turn_all, close, close_all,
}

module _ {A : Type 0} where
  -- The jobs, then so many pills.
  abbrev pub pending : List A → ℕ → List (Option A)
  pending [] zero = []
  pending [] (suc k) = none ∷ pending [] k
  pending (j ∷ js) k = some j ∷ pending js k

  pending-job : (js : List A) (j : A) → pending js 0 ++ some j ∷ [] ≡ pending (js ++ j ∷ []) 0
  pending-job [] j = refl
  pending-job (i ∷ js) j = ap (λ x. some i ∷ x) (pending-job js j)

  pending-pill : (js : List A) (k : ℕ) → pending js k ++ none ∷ [] ≡ pending js (suc k)
  pending-pill [] zero = refl
  pending-pill [] (suc k) = ap (λ x. none ∷ x) (pending-pill [] k)
  pending-pill (i ∷ js) k = ap (λ x. some i ∷ x) (pending-pill js k)

  -- The queue has the jobs that are accepted and not taken, then the pills that no thread took; a
  -- thread has ended only when no job is left.
  pub record IsPooled (n : ℕ) (js : List A) (k : ℕ) (s : Pooled A) : Type 0 where
    pub queue : s.pool.jobq.q ≡ pending js k
    pub order : s.accepted ≡ s.taken ++ js
    pub count : s.ended + k ≡ s.pills
    pub within : s.pills ≤ n
    pub threads : s.pool.nthreads ≡ n
    pub last : (s.ended ≡ 0) ⊎ (js ≡ [])

  pub record IsSome (n : ℕ) (s : Pooled A) : Type 0 where
    pub js : List A
    pub k : ℕ
    pub sound : IsPooled n js k s

  take_empty : (p : ThrPool A) → p.jobq.q ≡ [] → take_job p ≡ none
  unfolding take_job
  take_empty p e = rw (deq_empty p.jobq e, take_job) refl

  pub take_first :
      (p : ThrPool A) (j : Option A) (q : List (Option A))
      → p.jobq.q ≡ j ∷ q
      → take_job p ≡ some (record p { jobq = record p.jobq { q = q } }, j)
  unfolding take_job
  take_first p j q e = rw (deq_first p.jobq j q e, take_job) refl

  job_taken :
      (n : ℕ) (j : A) (js : List A) (k : ℕ) (s : Pooled A)
      → IsPooled n (j ∷ js) k s
      → IsPooled n js k (record s {
        pool = record s.pool { jobq = record s.pool.jobq { q = pending js k } };
        taken = s.taken ++ j ∷ [];
      })
  job_taken n j js k s i = record {
    queue = refl;
    order = i.order ∙ sym (append_assoc s.taken (j ∷ []) js);
    count = i.count;
    within = i.within;
    threads = i.threads;
    last = elim i.last [ inl none_ended ↦ inl none_ended | inr e ↦ absurd (cc e) ];
  }

  taken_from :
      (n : ℕ) (js : List A) (k : ℕ) (s : Pooled A)
      → IsPooled n js k s
      → IsSome n (after_take s (take_job s.pool))
  taken_from n [] zero s i =
      subst (λ o. IsSome n (after_take s o)) (sym (take_empty s.pool i.queue))
        (record { js = []; k = 0; sound = i })
  taken_from n [] (suc k) s i =
      subst (λ o. IsSome n (after_take s o)) (sym (take_first s.pool none (pending [] k) i.queue))
        (record {
          js = [];
          k = k;
          sound = record {
            queue = refl;
            order = i.order;
            count = omega (arith, i.count);
            within = i.within;
            threads = i.threads;
            last = inr refl;
          };
        })
  taken_from n (j ∷ js) k s i =
      subst (λ o. IsSome n (after_take s o))
        (sym (take_first s.pool (some j) (pending js k) i.queue))
        (record { js = js; k = k; sound = job_taken n j js k s i })

  do_worker-IsSome : (n : ℕ) (s : Pooled A) → IsSome n s → IsSome n (do_worker s)
  unfolding do_worker
  do_worker-IsSome n s i = elim (Bool-cases (ltb s.ended s.pool.nthreads)) [
    | inl left ↦ rw (left, do_worker) (taken_from n i.js i.k s i.sound)
    | inr over ↦ rw (over, do_worker) i
  ]

  enq_cases :
      (e : Option A) (b : Bool) (f : Fifo (Option A))
      → (enq e b f ≡ done (record f { q = f.q ++ e ∷ [] }))
        ⊎ ((enq e b f ≡ gives_up) ⊎ (enq e b f ≡ waits))
  unfolding enq
  enq_cases e b f = ground (arith)

  -- A pool in use, where no pill is there yet.
  pub record IsInUse (n : ℕ) (s : Pooled A) : Type 0 where
    pub js : List A
    pub sound : IsPooled n js 0 s
    pub no_pill : s.pills ≡ 0

  added_IsInUse :
      (n : ℕ) (j : A) (s : Pooled A)
      → IsInUse n s
      → IsInUse n (after_add j s (done (record s.pool.jobq { q = s.pool.jobq.q ++ some j ∷ [] })))
  added_IsInUse n j s i = record {
    js = i.js ++ j ∷ [];
    sound = record {
      queue = ap (λ x. x ++ some j ∷ []) i.sound.queue ∙ pending-job i.js j;
      order = ap (λ x. x ++ j ∷ []) i.sound.order ∙ append_assoc s.taken i.js (j ∷ []);
      count = i.sound.count;
      within = i.sound.within;
      threads = i.sound.threads;
      last = inl (omega (arith, i.sound.count, i.no_pill));
    };
    no_pill = i.no_pill;
  }

  add-IsInUse :
      (n : ℕ) (j : A) (s : Pooled A) → IsInUse n s → IsInUse n (after_add j s (add_job j s.pool))
  unfolding add_job
  add-IsInUse n j s i = elim (enq_cases (some j) s.pool.blockadd s.pool.jobq) [
    | inl room ↦ rw (room) (added_IsInUse n j s i)
    | inr (inl full) ↦ rw (full) i
    | inr (inr full) ↦ rw (full) i
  ]

  pill-IsSome : (n : ℕ) (s : Pooled A) → IsSome n s → IsSome n (poison s)
  unfolding poison
  pill-IsSome n s i = elim (Bool-cases (ltb s.pills s.pool.nthreads)) [
    | inr over ↦ rw (over, poison) i
    | inl left ↦ elim (enq_cases none true s.pool.jobq) [
      | inr (inl full) ↦ rw (left, full, poison) i
      | inr (inr full) ↦ rw (left, full, poison) i
      | inl room ↦
          rw (left, room, poison)
            (record {
              js = i.js;
              k = suc i.k;
              sound = record {
                queue = ap (λ x. x ++ none ∷ []) i.sound.queue ∙ pending-pill i.js i.k;
                order = i.sound.order;
                count = omega (arith, i.sound.count);
                within = ground (arith, left, i.sound.threads);
                threads = i.sound.threads;
                last = i.sound.last;
              };
            })
    ]
  ]

  -- Without a pill no thread ends.
  used_from :
      (n : ℕ) (js : List A) (s : Pooled A)
      → IsPooled n js 0 s
      → s.pills ≡ 0
      → IsInUse n (after_take s (take_job s.pool))
  used_from n [] s i e =
      subst (λ o. IsInUse n (after_take s o)) (sym (take_empty s.pool i.queue))
        (record { js = []; sound = i; no_pill = e })
  used_from n (j ∷ js) s i e =
      subst (λ o. IsInUse n (after_take s o))
        (sym (take_first s.pool (some j) (pending js 0) i.queue))
        (record { js = js; sound = job_taken n j js 0 s i; no_pill = e })

  turn-IsInUse : (n : ℕ) (t : Turn A) (s : Pooled A) → IsInUse n s → IsInUse n (turn t s)
  unfolding turn do_worker
  turn-IsInUse n (adds j) s i = add-IsInUse n j s i
  turn-IsInUse n works s i = elim (Bool-cases (ltb s.ended s.pool.nthreads)) [
    | inl left ↦ rw (left, turn, do_worker) (used_from n i.js s i.sound i.no_pill)
    | inr over ↦ rw (over, turn, do_worker) i
  ]

  pub turn_all-IsInUse :
      (n : ℕ) (ts : List (Turn A)) (s : Pooled A) → IsInUse n s → IsInUse n (turn_all ts s)
  unfolding turn_all
  turn_all-IsInUse n [] s i = i
  turn_all-IsInUse n (t ∷ ts) s i = turn_all-IsInUse n ts (turn t s) (turn-IsInUse n t s i)

  pub close_all-IsSome :
      (n : ℕ) (cs : List Closing) (s : Pooled A) → IsSome n s → IsSome n (close_all cs s)
  unfolding close_all close
  close_all-IsSome n [] s i = i
  close_all-IsSome n (poisons ∷ cs) s i = close_all-IsSome n cs (poison s) (pill-IsSome n s i)
  close_all-IsSome n (last_works ∷ cs) s i =
      close_all-IsSome n cs (do_worker s) (do_worker-IsSome n s i)

  pub new-IsInUse : (n : ℕ) (b : Bool) → IsInUse n (pooled_new n b)
  new-IsInUse n b = record {
    js = [];
    sound = record {
      queue = refl;
      order = refl;
      count = refl;
      within = omega (arith);
      threads = refl;
      last = inl refl;
    };
    no_pill = refl;
  }
