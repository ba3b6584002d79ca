-- ===== src/Paxos/Proposer.antt =====
-- `proposer` of paxos.h and paxos.cc. What each RPC brings back is an argument: `Reply`, by the
-- place of the node in the list that is asked. The mutex is given up during an RPC, but `stable`
-- keeps a second `run` out, and only `run` touches the fields used here.
use simple_distributed_files.Prelude.{
  ℕ, suc, ◌+◌, ◌/◌, ◌%◌, Bool, true, false, not, List, [], ◌∷◌, ◌++◌, Bytes, ltb, leb, ◌==◌,
  if◌then◌else◌, str_eq, length,
}
use simple_distributed_files.Paxos.Proposal.{PropT, gt}
use simple_distributed_files.Paxos.Acceptor.{u32_mod, Preparearg, Prepareres, Acceptarg, Decidearg}

-- `isamember` and the loop of `majority`.
unfoldable pub isamember : Bytes → List Bytes → Bool
isamember m [] = false
isamember m (x ∷ nodes) = if str_eq x m then true else isamember m nodes

unfoldable pub count_members : List Bytes → List Bytes → ℕ
count_members [] l2 = 0
count_members (x ∷ l1) l2 =
    let rest = count_members l1 l2 in if isamember x l2 then suc rest else rest

unfoldable pub majority : List Bytes → List Bytes → Bool
majority l1 l2 = leb (length l1 / 2 + 1) (count_members l1 l2)

-- What a call of a node brings: no binding, a status other than OK, or OK with the reply.
pub data Reply (A : Type 0) : Type 0 where
  unbound : Reply A
  failure : Reply A
  reply : A → Reply A

pub record Proposer : Type 0 where
  pub me : Bytes
  pub break1 : Bool
  pub break2 : Bool
  pub stable : Bool
  pub my_n : PropT

abbrev pub proposer_new : Bytes → Proposer
proposer_new me = record {
  me = me;
  break1 = false;
  break2 = false;
  stable = true;
  my_n = record { n = 0; m = me };
}

unfoldable pub isrunning : Proposer → Bool
isrunning p = not p.stable

-- `n_h` is the promise of the acceptor beside it. The sums are those of `unsigned`.
unfoldable pub setn : PropT → Proposer → Proposer
setn n_h p = record p {
  my_n = record p.my_n {
    n =
        if ltb ((p.my_n.n + 1) % u32_mod) ((n_h.n + 1) % u32_mod)
        then (n_h.n + 1) % u32_mod
        else (p.my_n.n + 1) % u32_mod;
  };
}

-- How the prepare round ends: a node has decided the instance already, or all were asked.
pub data Prepared : Type 0 where
  oldinstance : Bytes → Prepared
  polled : List Bytes → Bytes → Prepared

-- What one answer means to `prepare`: the instance is over, nothing, or a promise.
pub data Poll : Type 0 where
  stop : Bytes → Poll
  skip : Poll
  grant : Prepareres → Poll

unfoldable pub poll : Reply Prepareres → Poll
poll unbound = skip
poll failure = skip
poll (reply r) = if r.oldinstance then stop r.v_a else if r.accept then grant r else skip

-- The loop of `prepare` from node `i` on, with `highest_seen`, `v` and `accepts` so far.
unfoldable pub prepare_loop :
    (ℕ → Reply Prepareres) → ℕ → List Bytes → PropT → Bytes → List Bytes → Prepared
prepare_loop answer i [] highest v accepts = polled accepts v
prepare_loop answer i (x ∷ nodes) highest v accepts = elim (poll (answer i)) [
  | stop w ↦ oldinstance w
  | skip ↦ prepare_loop answer (suc i) nodes highest v accepts
  | grant r ↦
      prepare_loop answer (suc i) nodes (if gt r.n_a highest then r.n_a else highest)
        (if gt r.n_a highest then r.v_a else v) (accepts ++ x ∷ [])
]

unfoldable pub prepare : (ℕ → Reply Prepareres) → List Bytes → Prepared
prepare answer nodes = prepare_loop answer 0 nodes (record { n = 0; m = [] }) [] []

-- The loop of `accept`: the nodes that answered true.
unfoldable pub accept_loop : (ℕ → Reply Bool) → ℕ → List Bytes → List Bytes → List Bytes
accept_loop answer i [] accepts = accepts
accept_loop answer i (x ∷ nodes) accepts = elim (answer i) [
  | unbound ↦ accept_loop answer (suc i) nodes accepts
  | failure ↦ accept_loop answer (suc i) nodes accepts
  | reply b ↦ accept_loop answer (suc i) nodes (if b then accepts ++ x ∷ [] else accepts)
]

-- What the world does to a run: the replies of the two rounds.
pub record World : Type 0 where
  pub prepares : ℕ → Reply Prepareres
  pub accepts : ℕ → Reply Bool

-- What a run sends and does besides: the rounds of requests, each with the nodes to ask in order
-- (an `oldinstance` answer ends the asking), and the `commit` on the acceptor beside it.
pub data Event : Type 0 where
  send_prepares : List Bytes → Preparearg → Event
  send_accepts : List Bytes → Acceptarg → Event
  send_decides : List Bytes → Decidearg → Event
  commits : ℕ → Bytes → Event

-- `exited` is `exit(1)` at a breakpoint.
pub data Outcome : Type 0 where
  returned : Bool → Proposer → Outcome
  exited : Outcome

-- After the accept round.
unfoldable pub finish_run :
    Proposer → ℕ → List Bytes → Bytes → List Bytes → List Event → List Event × Outcome
finish_run p inst cur_nodes v accepts sent =
    if majority cur_nodes accepts
    then (if p.break2 then (sent, exited) else (
      sent ++ send_decides accepts (record { instance_no = inst; v = v }) ∷ [],
      returned true (record p { stable = true }),
    ))
    else (sent, returned false (record p { stable = true }))

-- After a prepare round that asked all nodes.
unfoldable pub accept_phase :
    World
    → Proposer
    → ℕ
    → List Bytes
    → Bytes
    → List Bytes
    → Bytes
    → List Event
    → List Event × Outcome
accept_phase w p inst cur_nodes newv accepts v sent =
    let chosen = if length v == 0 then newv else v in
    if majority cur_nodes accepts
    then (if p.break1
        then (sent, exited)
        else finish_run p inst cur_nodes chosen (accept_loop w.accepts 0 accepts []) (
            sent
            ++ send_accepts accepts (record { instance_no = inst; n = p.my_n; v = chosen }) ∷ []))
    else (sent, returned false (record p { stable = true }))

unfoldable pub run_stable : World → Proposer → ℕ → List Bytes → Bytes → List Event × Outcome
run_stable w p inst cur_nodes newv =
    let sent = send_prepares cur_nodes (record { instance_no = inst; n = p.my_n }) ∷ [] in
    elim (prepare w.prepares cur_nodes) [
      | oldinstance v ↦ (sent ++ commits inst v ∷ [], returned false (record p { stable = true }))
      | polled accepts v ↦ accept_phase w p inst cur_nodes newv accepts v sent
    ]

-- `proposer::run`, with the promise of the acceptor beside it.
unfoldable pub run : World → PropT → Proposer → ℕ → List Bytes → Bytes → List Event × Outcome
run w n_h p inst cur_nodes newv =
    if p.stable
    then run_stable w (setn n_h (record p { stable = false })) inst cur_nodes newv
    else ([], returned false p)

unfoldable pub breakpoint : ℕ → Proposer → Proposer
breakpoint b p =
    if b == 3 then record p { break1 = true } else if b == 4 then record p { break2 = true } else p
