-- ===== src/Paxos/Run.antt =====
-- What a run of `proposer` in paxos.cc achieves, and the number that it runs under.
use simple_distributed_files.Prelude.{
  ℕ, suc, ◌+◌, ◌%◌, ◌<◌, ◌≡◌, sym, inl, inr, Bool, true, false, List, [], ◌∷◌, ◌++◌, append_assoc,
  append-nil, arith, Bytes, length, ◌==◌, if◌then◌else◌,
}
use simple_distributed_files.Paxos.Proposal.{PropT, gt}
use simple_distributed_files.Paxos.Acceptor.{u32_mod}
use simple_distributed_files.Paxos.Proposer.{
  Proposer, Reply, unbound, failure, reply, World, Event, send_prepares, send_accepts, send_decides,
  returned, polled, prepare, accept_loop, majority, setn, finish_run, accept_phase, run_stable, run,
}
use simple_distributed_files.Paxos.Rounds.{Prepared-cases, returned_ne}

-- The nodes that answered the accept round with true.
unfoldable pub agreed : (ℕ → Reply Bool) → ℕ → List Bytes → List Bytes
agreed answer i [] = []
agreed answer i (x ∷ nodes) =
    let rest = agreed answer (suc i) nodes in
    elim (answer i) [ unbound ↦ rest | failure ↦ rest | reply b ↦ if b then x ∷ rest else rest ]

accept_loop_lem :
    (answer : ℕ → Reply Bool) (i : ℕ) (nodes accepts : List Bytes)
    → accept_loop answer i nodes accepts ≡ accepts ++ agreed answer i nodes
unfolding accept_loop agreed
accept_loop_lem answer i [] accepts = sym (append-nil accepts)
accept_loop_lem answer i (x ∷ nodes) accepts = ground (
  arith,
  accept_loop_lem answer (suc i) nodes accepts,
  accept_loop_lem answer (suc i) nodes (accepts ++ x ∷ []),
  append_assoc accepts (x ∷ []) (agreed answer (suc i) nodes),
)

finish_run_succeeds :
    (p q : Proposer) (inst : ℕ) (nodes : List Bytes) (v : Bytes) (accepts : List Bytes)
    (sent sent' : List Event)
    → finish_run p inst nodes v accepts sent ≡ (sent', returned true q)
    → (majority nodes accepts ≡ true)
      × (sent' ≡ sent ++ send_decides accepts (record { instance_no = inst; v = v }) ∷ [])
unfolding finish_run
finish_run_succeeds p q inst nodes v accepts sent sent' e = ground arith

accept_phase_succeeds :
    (w : World) (p q : Proposer) (inst : ℕ) (nodes : List Bytes) (newv : Bytes)
    (promised : List Bytes) (v : Bytes) (sent sent' : List Event)
    → accept_phase w p inst nodes newv promised v sent ≡ (sent', returned true q)
    → (majority nodes promised ≡ true)
      × (finish_run p inst nodes
            (if length v == 0 then newv else v)
            (accept_loop w.accepts 0 promised [])
            (sent
              ++ send_accepts promised
                  (record { instance_no = inst; n = p.my_n; v = if length v == 0 then newv else v })
                ∷ [])
          ≡ (sent', returned true q))
unfolding accept_phase
accept_phase_succeeds w p q inst nodes newv promised v sent sent' e = ground arith

run_stable_succeeds :
    (w : World) (p q : Proposer) (inst : ℕ) (nodes : List Bytes) (newv : Bytes) (sent : List Event)
    → run_stable w p inst nodes newv ≡ (sent, returned true q)
    → (promised : List Bytes) × (v : Bytes) × (prepare w.prepares nodes ≡ polled promised v)
      × (accept_phase w p inst nodes newv promised v
            (send_prepares nodes (record { instance_no = inst; n = p.my_n }) ∷ [])
          ≡ (sent, returned true q))
unfolding run_stable
run_stable_succeeds w p q inst nodes newv sent e =
    elim (Prepared-cases (prepare w.prepares nodes)) [
      | inl (v, h) ↦ absurd (returned_ne (rw (h, run_stable) at e))
      | inr (promised, v, h) ↦ (promised, v, h, rw (h, run_stable) at e)
    ]

run_started :
    (w : World) (n_h : PropT) (p q : Proposer) (inst : ℕ) (nodes : List Bytes) (newv : Bytes)
    (sent : List Event)
    → run w n_h p inst nodes newv ≡ (sent, returned true q)
    → run_stable w (setn n_h (record p { stable = false })) inst nodes newv
      ≡ (sent, returned true q)
unfolding run
run_started w n_h p q inst nodes newv sent e = ground arith

-- A run that succeeds held a majority of promises and then a majority of accepts, for one value:
-- the one that the promises report, or the caller's own if they report none. It sent that value
-- under its new number to the nodes that promised, and decides to the nodes that accepted.
pub run_succeeds :
    (w : World) (n_h : PropT) (p q : Proposer) (inst : ℕ) (nodes : List Bytes) (newv : Bytes)
    (sent : List Event)
    → run w n_h p inst nodes newv ≡ (sent, returned true q)
    → (promised : List Bytes) × (v : Bytes) × (prepare w.prepares nodes ≡ polled promised v)
      × (majority nodes promised ≡ true)
      × (majority nodes (agreed w.accepts 0 promised) ≡ true)
      × (sent
          ≡ send_prepares nodes (record { instance_no = inst; n = (setn n_h p).my_n })
            ∷ send_accepts promised (record {
              instance_no = inst;
              n = (setn n_h p).my_n;
              v = if length v == 0 then newv else v;
            })
            ∷ send_decides
                (agreed w.accepts 0 promised)
                (record { instance_no = inst; v = if length v == 0 then newv else v })
            ∷ [])
unfolding setn
run_succeeds w n_h p q inst nodes newv sent e =
    let p' : Proposer = setn n_h (record p { stable = false }) in
    let run' : run_stable w p' inst nodes newv ≡ (sent, returned true q) =
      run_started w n_h p q inst nodes newv sent e in
    let (promised, v, h, phase) = run_stable_succeeds w p' q inst nodes newv sent run' in
    let (quorum, finish) = accept_phase_succeeds w p' q inst nodes newv promised v _ sent phase in
    let (quorum', events) = finish_run_succeeds p' q inst nodes _ _ _ sent finish in
    let asked : accept_loop w.accepts 0 promised [] ≡ agreed w.accepts 0 promised =
      accept_loop_lem w.accepts 0 promised [] in
    (promised, v, h, quorum, rw asked at quorum', rw asked at events)

-- While no sum wraps, a new number is above the acceptor's promise and the proposer's last one,
-- and keeps the proposer's name.
pub setn_fresh :
    (n_h : PropT) (p : Proposer)
    → n_h.n + 1 < u32_mod
    → p.my_n.n + 1 < u32_mod
    → (gt (setn n_h p).my_n n_h ≡ true)
      × (gt (setn n_h p).my_n p.my_n ≡ true)
      × ((setn n_h p).my_n.m ≡ p.my_n.m)
unfolding setn gt
setn_fresh n_h p h k =
    let e : (n_h.n + 1) % u32_mod ≡ n_h.n + 1 = omega arith in
    let e' : (p.my_n.n + 1) % u32_mod ≡ p.my_n.n + 1 = omega arith in ground (arith, e, e')
