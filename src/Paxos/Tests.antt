-- ===== src/Paxos/Tests.antt =====
-- Runs of the Paxos model, and the theorems about it at concrete inputs.
use simple_distributed_files.Prelude.{
  ℕ, ◌≤◌, ◌≡◌, refl, true, false, List, [], ◌∷◌, some, arith, Bytes, length, ◌==◌, if◌then◌else◌,
  str_eq, str_lt,
}
use simple_distributed_files.Text.Stream.{is_space, read_word}
use simple_distributed_files.Paxos.Proposal.{PropT, gt, ge}
use simple_distributed_files.Paxos.Acceptor.{
  Acceptor, Preparearg, Prepareres, Acceptarg, preparereq, acceptreq, decidereq, commit, commit_wo,
}
use simple_distributed_files.Paxos.Log.{blank, logread, acceptor_new, read_records}
use simple_distributed_files.Paxos.Calls.{Call, prepare, accept, decide, apply_call, run_calls}
use simple_distributed_files.Paxos.Promise.{promise_kept, decided_stands, stale_accept_reported}
use simple_distributed_files.Paxos.Proposer.{
  Proposer, proposer_new, Reply, reply, unbound, failure, World, Event, send_prepares, send_accepts,
  send_decides, Outcome, returned, isamember, count_members, majority, setn, prepare_loop, polled,
  poll, accept_loop, finish_run, accept_phase, run_stable, run,
}
use simple_distributed_files.Paxos.Proposer
use simple_distributed_files.Paxos.Quorum.{Shared, majority-majority}
use simple_distributed_files.Paxos.Rounds.{promises, names, IsHighest, prepare_lem}
use simple_distributed_files.Paxos.Run.{agreed, run_succeeds, setn_fresh}
use simple_distributed_files.Paxos.Recovery.{Record, done, propseen, accepted}
use simple_distributed_files.Paxos.Logged.{SameState}
use simple_distributed_files.Paxos.Restart.{restart_recovers}

-- Nodes are named by ports.
abbrev node_a : Bytes
node_a = 49 ∷ []

abbrev node_b : Bytes
node_b = 50 ∷ []

abbrev node_c : Bytes
node_c = 51 ∷ []

abbrev view : List Bytes
view = node_a ∷ node_b ∷ node_c ∷ []

abbrev value : Bytes
value = 120 ∷ 32 ∷ 121 ∷ []

abbrev prop : ℕ → Bytes → PropT
prop n m = record { n = n; m = m }

abbrev start : Acceptor
start = blank false node_a []

abbrev no_res : Prepareres
no_res = record { oldinstance = false; accept = false; n_a = prop 0 []; v_a = [] }

abbrev ask : ℕ → ℕ → Preparearg
ask i n = record { instance_no = i; n = prop n node_b }

abbrev offer : ℕ → ℕ → Acceptarg
offer i n = record { instance_no = i; n = prop n node_b; v = value }

abbrev history : List Call
history = prepare (ask 1 7) no_res ∷ accept (offer 1 7) ∷ []

abbrev after_history : Acceptor
after_history =
    (acceptreq (preparereq (preparereq start (ask 1 5) no_res).0 (ask 1 7) no_res).0 (offer 1 7)).0

promise_kept_example : acceptreq after_history (offer 1 3) ≡ (after_history, false)
unfolding preparereq acceptreq apply_call run_calls gt ge str_lt str_eq
promise_kept_example =
    promise_kept start after_history (ask 1 5) no_res history (offer 1 3) refl refl refl refl

abbrev decided : Acceptor
decided = commit 1 value start

abbrev after_decided : Acceptor
after_decided = (acceptreq (preparereq decided (ask 2 7) no_res).0 (offer 1 7)).0

decided_stands_example :
    (after_decided.values 1 ≡ decided.values 1) × (1 ≤ after_decided.instance_h)
unfolding preparereq acceptreq apply_call run_calls commit commit_wo gt ge decidereq str_lt str_eq
decided_stands_example =
    decided_stands
      (prepare (ask 2 7) no_res
        ∷ accept (offer 1 7)
        ∷ decide (record { instance_no = 1; v = node_c })
        ∷ [])
      decided after_decided 1 refl (omega arith)

stale_accept_reported_example :
    let b = (acceptreq (commit 1 value start) (offer 1 4)).0 in
    ((acceptreq (commit 1 value start) (offer 1 4)).1 ≡ true)
    × ((preparereq b (ask 2 9) no_res).1
        ≡ record { oldinstance = false; accept = true; n_a = prop 4 node_b; v_a = value })
stale_accept_reported_example =
    stale_accept_reported start 1 value (offer 1 4) (ask 2 9) no_res (omega arith) refl
      (omega arith) (omega arith) (omega arith)

majority-majority_example : Shared view (node_a ∷ node_b ∷ []) (node_c ∷ node_b ∷ [])
unfolding majority isamember count_members str_eq
majority-majority_example =
    majority-majority view (node_a ∷ node_b ∷ []) (node_c ∷ node_b ∷ []) refl refl

-- The first node promises, the second is not reached, the third promises and has accepted.
abbrev prepare_answers : ℕ → Reply Prepareres
prepare_answers i =
    if i == 1
    then unbound
    else if i == 2
    then reply (record { oldinstance = false; accept = true; n_a = prop 4 node_c; v_a = value })
    else reply (record no_res { accept = true })

prepare_lem_example :
    ((node_a ∷ node_c ∷ []) ≡ names (promises prepare_answers 0 view))
    × IsHighest (record { n = 0; m = [] }) [] (promises prepare_answers 0 view) value
unfolding Proposer.prepare prepare_loop poll gt str_lt
prepare_lem_example = prepare_lem prepare_answers view (node_a ∷ node_c ∷ []) value refl

abbrev world : World
world = record { prepares = prepare_answers; accepts = λ i. reply true }

abbrev ran : List Event × Outcome
ran = run world (prop 6 node_b) (proposer_new node_a) 1 view node_a

abbrev numbered : Proposer
numbered = setn (prop 6 node_b) (proposer_new node_a)

run_succeeds_example :
    (promised : List Bytes) × (v : Bytes) × (Proposer.prepare prepare_answers view
      ≡ polled promised v)
    × (majority view promised ≡ true)
    × (majority view (agreed world.accepts 0 promised) ≡ true)
    × (ran.0
        ≡ send_prepares view (record { instance_no = 1; n = numbered.my_n })
          ∷ send_accepts promised (record {
            instance_no = 1;
            n = numbered.my_n;
            v = if length v == 0 then node_a else v;
          })
          ∷ send_decides
              (agreed world.accepts 0 promised)
              (record { instance_no = 1; v = if length v == 0 then node_a else v })
          ∷ [])
unfolding run run_stable accept_phase finish_run Proposer.prepare prepare_loop poll gt majority
    isamember count_members accept_loop setn str_eq str_lt
run_succeeds_example =
    run_succeeds world (prop 6 node_b) (proposer_new node_a) numbered 1 view node_a ran.0 refl

setn_fresh_example :
    (gt numbered.my_n (prop 6 node_b) ≡ true)
    × (gt numbered.my_n (prop 0 node_a) ≡ true)
    × (numbered.my_n.m ≡ node_a)
setn_fresh_example = setn_fresh (prop 6 node_b) (proposer_new node_a) (omega arith) (omega arith)

-- A prepare, an accept, a decision and a stale prepare, written to the log and read back.
abbrev calls : List Call
calls =
    prepare (ask 1 5) no_res
    ∷ accept (offer 1 5)
    ∷ decide (record { instance_no = 1; v = value })
    ∷ prepare (ask 2 6) no_res
    ∷ []

abbrev after_calls : Acceptor
after_calls =
    (preparereq (commit_wo 1 value (acceptreq (preparereq start (ask 1 5) no_res).0 (offer 1 5)).0)
      (ask 2 6) no_res).0

restart_recovers_example :
    (b : Acceptor) × (acceptor_new false false node_a [] after_calls.file 0 ≡ some b)
    × SameState after_calls b
unfolding preparereq acceptreq apply_call run_calls commit commit_wo gt ge decidereq str_eq str_lt
    is_space acceptor_new logread read_records read_word
restart_recovers_example =
    restart_recovers false false node_a [] 0 0 calls start after_calls tt
      (
        (omega arith, (refl, tt)),
        (
          ((omega arith, (refl, tt)), (refl, (refl, (refl, tt)))),
          ((omega arith, (refl, (refl, (refl, tt)))), ((omega arith, (refl, tt)), tt)),
        ),
      )
      refl refl

abbrev records : List Record
records = propseen (prop 5 node_b) ∷ accepted (prop 5 node_b) value ∷ done 1 value ∷ []
