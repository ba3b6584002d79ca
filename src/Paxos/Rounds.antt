-- ===== src/Paxos/Rounds.antt =====
-- What the prepare round of `proposer` in paxos.cc brings back.
use simple_distributed_files.Prelude.{
  ℕ, suc, ◌≡◌, refl, ◌∙◌, ◌⊎◌, inl, inr, true, false, List, [], ◌∷◌, ◌++◌, map, append_assoc,
  append-nil, arith, Bytes, Bool-cases, All, Has, if◌then◌else◌,
}
use simple_distributed_files.Paxos.Proposal.{PropT, gt, gt_trans, gt_irrefl}
use simple_distributed_files.Paxos.Acceptor.{Prepareres}
use simple_distributed_files.Paxos.Proposer.{
  Proposer, Reply, Outcome, returned, Prepared, oldinstance, polled, Poll, stop, skip, grant, poll,
  prepare_loop, prepare,
}

-- The promises of the nodes asked, from node `i` on: each that answered with accept.
unfoldable pub promises : (ℕ → Reply Prepareres) → ℕ → List Bytes → List (Bytes × Prepareres)
promises answer i [] = []
promises answer i (x ∷ nodes) =
    let rest = promises answer (suc i) nodes in
    elim (poll (answer i)) [ stop w ↦ rest | skip ↦ rest | grant r ↦ (x, r) ∷ rest ]

abbrev pub names : List (Bytes × Prepareres) → List Bytes
names = map (λ p. p.0)

-- Of the promises the value is the one accepted under the highest proposal, and that is above
-- `highest`; or none is above it, and the value is `v`.
abbrev pub IsHighest : PropT → Bytes → List (Bytes × Prepareres) → Bytes → Type 0
IsHighest highest v ps w =
    ((w ≡ v) × All (λ p. gt p.1.n_a highest ≡ false) ps)
    ⊎ ((p : Bytes × Prepareres) × Has p ps
        × (w ≡ p.1.v_a)
        × (gt p.1.n_a highest ≡ true)
        × All (λ q. gt q.1.n_a p.1.n_a ≡ false) ps)

asym : (p q : PropT) → gt p q ≡ true → gt q p ≡ false
asym p q h = ground (arith, gt_trans p q p, gt_irrefl p)

not_above :
    (highest low high : PropT)
    → gt low highest ≡ false
    → gt high highest ≡ true
    → gt low high ≡ false
not_above highest low high h k = ground (arith, gt_trans low high highest)

IsHighest-low :
    (highest : PropT) (v w : Bytes) (p : Bytes × Prepareres) (ps : List (Bytes × Prepareres))
    → gt p.1.n_a highest ≡ false
    → IsHighest highest v ps w
    → IsHighest highest v (p ∷ ps) w
IsHighest-low highest v w p ps low (inl (e, a)) = inl (e, (low, a))
IsHighest-low highest v w p ps low (inr (q, h, e, g, a)) =
    inr (q, inr h, e, g, (not_above highest p.1.n_a q.1.n_a low g, a))

IsHighest-high :
    (highest : PropT) (v w : Bytes) (p : Bytes × Prepareres) (ps : List (Bytes × Prepareres))
    → gt p.1.n_a highest ≡ true
    → IsHighest p.1.n_a p.1.v_a ps w
    → IsHighest highest v (p ∷ ps) w
IsHighest-high highest v w p ps high (inl (e, a)) =
    inr (p, inl refl, e, high, (gt_irrefl p.1.n_a, a))
IsHighest-high highest v w p ps high (inr (q, h, e, g, a)) =
    inr (q, inr h, e, gt_trans q.1.n_a p.1.n_a highest g high, (asym q.1.n_a p.1.n_a g, a))

Poll-cases :
    (p : Poll) → ((w : Bytes) × (p ≡ stop w)) ⊎ (p ≡ skip) ⊎ ((r : Prepareres) × (p ≡ grant r))
Poll-cases (stop w) = inl (w, refl)
Poll-cases skip = inr (inl refl)
Poll-cases (grant r) = inr (inr (r, refl))

IsHighest-cons :
    (highest : PropT) (v w : Bytes) (p : Bytes × Prepareres) (ps : List (Bytes × Prepareres))
    → IsHighest
        (if gt p.1.n_a highest then p.1.n_a else highest)
        (if gt p.1.n_a highest then p.1.v_a else v)
        ps
        w
    → IsHighest highest v (p ∷ ps) w
IsHighest-cons highest v w p ps h = elim (Bool-cases (gt p.1.n_a highest)) [
  | inl high ↦ IsHighest-high highest v w p ps high (rw high at h)
  | inr low ↦ IsHighest-low highest v w p ps low (rw low at h)
]

pub Prepared-cases :
    (p : Prepared)
    → ((v : Bytes) × (p ≡ oldinstance v)) ⊎ ((l : List Bytes) × (v : Bytes) × (p ≡ polled l v))
Prepared-cases (oldinstance v) = inl (v, refl)
Prepared-cases (polled l v) = inr (l, v, refl)

pub stopped_ne : {v w : Bytes} {l : List Bytes} → oldinstance v ≡ polled l w → ⊥
stopped_ne h = cc

pub returned_ne :
    {A : Type 0} {a b : A} {p q : Proposer}
    → ◌≡◌ {A = A × Outcome} (a, returned false p) (b, returned true q)
    → ⊥
returned_ne h = cc

-- The loop from any node on, against the promises that it has still to meet.
prepare_loop_lem :
    (answer : ℕ → Reply Prepareres) (i : ℕ) (nodes : List Bytes) (highest : PropT) (v : Bytes)
    (accepts accepted : List Bytes) (w : Bytes)
    → prepare_loop answer i nodes highest v accepts ≡ polled accepted w
    → (accepted ≡ accepts ++ names (promises answer i nodes))
      × IsHighest highest v (promises answer i nodes) w
unfolding prepare_loop promises
prepare_loop_lem answer i [] highest v accepts accepted w e =
    (ground (arith, append-nil accepts), inl (ground arith, tt))
prepare_loop_lem answer i (x ∷ nodes) highest v accepts accepted w e =
    elim (Poll-cases (poll (answer i))) [
      | inl (old, h) ↦ absurd (stopped_ne (rw (h, prepare_loop) at e))
      | inr (inl h) ↦
          rw (h, promises)
            (prepare_loop_lem answer (suc i) nodes highest v accepts accepted w
              (rw (h, prepare_loop) at e))
      | inr (inr (r, h)) ↦
          let (l, m) =
            prepare_loop_lem answer (suc i) nodes (if gt r.n_a highest then r.n_a else highest)
              (if gt r.n_a highest then r.v_a else v) (accepts ++ x ∷ []) accepted w
              (rw (h, prepare_loop) at e) in
          rw (h, promises)
            (
              l ∙ append_assoc accepts (x ∷ []) (names (promises answer (suc i) nodes)),
              IsHighest-cons highest v w (x, r) (promises answer (suc i) nodes) m,
            )
    ]

-- A prepare round that asks all nodes returns exactly the nodes that promised, in order, and
-- among what they report the value accepted under the highest proposal; the empty string, if no
-- promise reports a proposal above the least one, which is numbered zero and has no name.
pub prepare_lem :
    (answer : ℕ → Reply Prepareres) (nodes accepted : List Bytes) (w : Bytes)
    → prepare answer nodes ≡ polled accepted w
    → (accepted ≡ names (promises answer 0 nodes))
      × IsHighest (record { n = 0; m = [] }) [] (promises answer 0 nodes) w
unfolding prepare
prepare_lem answer nodes accepted w e =
    prepare_loop_lem answer 0 nodes (record { n = 0; m = [] }) [] [] accepted w e
