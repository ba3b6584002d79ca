-- ===== src/Paxos/Promise.antt =====
-- What the handlers of `acceptor` keep over any history: decided values stand, the promise of a
-- prepare is kept until the instance is decided. And where they fall short of Paxos.
use simple_distributed_files.Prelude.{
  ℕ, ◌+◌, ◌≤◌, ◌<◌, ◌≡◌, refl, ◌∙◌, subst, ◌⊎◌, inl, inr, ◌↔◌, ◌≢◌, true, false, List, [], ◌∷◌,
  none, some, arith, Bytes, str_eq, str_eq→eq, str_eq_ne, Bool-cases, some_inj, then_some,
}
use simple_distributed_files.Paxos.Proposal.{gt, ge, ge_refl, gt→ge, ge_trans, ge_lem, ge-gt_trans}
use simple_distributed_files.Paxos.Acceptor.{
  Acceptor, Preparearg, Prepareres, Acceptarg, Decidearg, u32_mod, preparereq, acceptreq, decidereq,
  commit, commit_wo,
}
use simple_distributed_files.Paxos.Calls.{
  Call, prepare, accept, decide, commits, apply_call, run_calls,
}

-- The instance moves on, or the promise does not fall.
abbrev pub Holds : Acceptor → Acceptor → Type 0
Holds a b =
    (a.instance_h < b.instance_h) ⊎ ((a.instance_h ≡ b.instance_h) × (ge b.n_h a.n_h ≡ true))

apply_call-Holds : (c : Call) (a b : Acceptor) → apply_call c a ≡ some b → Holds a b
unfolding apply_call preparereq acceptreq commit decidereq commit_wo
apply_call-Holds (prepare arg r) a b e = ground (arith, ge_refl a.n_h, gt→ge arg.n a.n_h)
apply_call-Holds (accept arg) a b e = ground (arith, ge_refl a.n_h)
apply_call-Holds (decide arg) a b e = ground (arith, ge_refl a.n_h)
apply_call-Holds (commits i v) a b e = ground (arith, ge_refl a.n_h)

Holds-trans : (a b c : Acceptor) → Holds a b → Holds b c → Holds a c
Holds-trans a b c h k = ground (arith, ge_trans c.n_h b.n_h a.n_h)

run_calls-Holds : (cs : List Call) (a b : Acceptor) → run_calls cs a ≡ some b → Holds a b
unfolding run_calls
run_calls-Holds [] a b e = subst (Holds a) (some_inj e) (inr (refl, ge_refl a.n_h))
run_calls-Holds (c ∷ cs) a b e =
    let (x, h, rest) = then_some (apply_call c a) (run_calls cs) e in
    Holds-trans a x b (apply_call-Holds c a x h) (run_calls-Holds cs x b rest)

preparereq_promise :
    (a : Acceptor) (arg : Preparearg) (r : Prepareres)
    → (preparereq a arg r).1.accept ≡ true
    → ((preparereq a arg r).0.n_h ≡ arg.n) × ((preparereq a arg r).0.instance_h ≡ a.instance_h)
unfolding preparereq
preparereq_promise a arg r e = ground arith

acceptreq_refuses :
    (b : Acceptor) (low : Acceptarg) → gt b.n_h low.n ≡ true → acceptreq b low ≡ (b, false)
unfolding acceptreq
acceptreq_refuses b low h = ground (arith, ge_lem low.n b.n_h)

-- A prepare that was answered with accept is a promise: whatever is served afterwards, as long as
-- no further instance is decided, an accept of a smaller proposal is refused, and changes nothing.
pub promise_kept :
    (a b : Acceptor) (arg : Preparearg) (r : Prepareres) (cs : List Call) (low : Acceptarg)
    → (preparereq a arg r).1.accept ≡ true
    → run_calls cs (preparereq a arg r).0 ≡ some b
    → b.instance_h ≡ a.instance_h
    → gt arg.n low.n ≡ true
    → acceptreq b low ≡ (b, false)
promise_kept a b arg r cs low granted run same less = acceptreq_refuses b low (
    grind (
      arith,
      preparereq_promise a arg r granted,
      run_calls-Holds cs (preparereq a arg r).0 b run,
      ge-gt_trans b.n_h arg.n low.n,
    ))

apply_call-values :
    (c : Call) (a b : Acceptor) (i : ℕ)
    → apply_call c a ≡ some b
    → i ≤ a.instance_h
    → (b.values i ≡ a.values i) × (i ≤ b.instance_h)
unfolding apply_call preparereq acceptreq commit decidereq commit_wo
apply_call-values (prepare arg r) a b i e h = ground arith
apply_call-values (accept arg) a b i e h = ground arith
apply_call-values (decide arg) a b i e h = ground arith
apply_call-values (commits j v) a b i e h = ground arith

-- A decided value is never overwritten, and stays decided.
pub decided_stands :
    (cs : List Call) (a b : Acceptor) (i : ℕ)
    → run_calls cs a ≡ some b
    → i ≤ a.instance_h
    → (b.values i ≡ a.values i) × (i ≤ b.instance_h)
unfolding run_calls
decided_stands [] a b i e h = ground (arith, some_inj e)
decided_stands (c ∷ cs) a b i e h =
    let (x, k, rest) = then_some (apply_call c a) (run_calls cs) e in
    let (v, l) = apply_call-values c a x i k h in
    let (w, m) = decided_stands cs x b i rest l in (w ∙ v, m)

-- While the next instance's number does not wrap, a decide ends the process exactly if it is for
-- the next instance and another value than the one accepted, or for an instance beyond the next.
decidereq_aborts :
    (a : Acceptor) (arg : Decidearg)
    → a.instance_h + 1 < u32_mod
    → (decidereq a arg ≡ none) ↔ (
        ((arg.instance_no ≡ a.instance_h + 1) × (a.v_a ≢ arg.v))
        ⊎ (a.instance_h + 1 < arg.instance_no))
unfolding decidereq
decidereq_aborts a arg h = elim (Bool-cases (str_eq a.v_a arg.v)) [
  | inl same ↦ (λ e. ground (arith, same), λ c. ground (arith, same, str_eq→eq a.v_a arg.v same, c))
  | inr other ↦
      (λ e. ground (arith, other, str_eq_ne a.v_a arg.v other), λ c. ground (arith, other, c))
]

-- After a new instance is decided, a late accept for it with a positive number is accepted,
-- since the handler does not look at the instance; the next prepare with a positive number, for
-- a later instance, reports its stale value.
pub stale_accept_reported :
    (a : Acceptor) (i : ℕ) (v : Bytes) (late : Acceptarg) (p : Preparearg) (r : Prepareres)
    → a.instance_h < i
    → late.instance_no ≡ i
    → 0 < late.n.n
    → i < p.instance_no
    → 0 < p.n.n
    → let b = (acceptreq (commit i v a) late).0 in
      ((acceptreq (commit i v a) late).1 ≡ true)
      × ((preparereq b p r).1
          ≡ record { oldinstance = false; accept = true; n_a = late.n; v_a = late.v })
unfolding acceptreq preparereq commit commit_wo ge gt
stale_accept_reported a i v late p r h e pos later pos' = ground arith

-- After a higher proposal a lower one that is not below the promise is accepted too, and `n_a`
-- falls: it is not the highest proposal accepted.
pub accept_falls :
    (a : Acceptor) (high low : Acceptarg)
    → ge low.n a.n_h ≡ true
    → gt high.n low.n ≡ true
    → let b = (acceptreq a high).0 in
      (b.n_a ≡ high.n) × ((acceptreq b low).1 ≡ true) × ((acceptreq b low).0.n_a ≡ low.n)
unfolding acceptreq
accept_falls a high low h k = ground (arith, gt→ge high.n low.n, ge_trans high.n low.n a.n_h)
