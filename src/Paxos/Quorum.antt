-- ===== src/Paxos/Quorum.antt =====
-- `majority` of paxos.cc: two quorums of one view share a member.
use simple_distributed_files.Prelude.{
  ◌+◌, ◌≤◌, ◌≡◌, refl, ◌⊎◌, inl, inr, true, List, [], ◌∷◌, arith, Bytes, length, Bool-cases, Has,
  str_eq, str_eq→eq, str_eq_refl, sym, leb→le,
}
use simple_distributed_files.Paxos.Proposer.{isamember, count_members, majority}

-- A node of `view` that both lists hold.
abbrev pub Shared : List Bytes → List Bytes → List Bytes → Type 0
Shared view l1 l2 = (x : Bytes) × Has x view × (isamember x l1 ≡ true) × (isamember x l2 ≡ true)

Shared-or_few :
    (view l1 l2 : List Bytes)
    → Shared view l1 l2 ⊎ (count_members view l1 + count_members view l2 ≤ length view)
unfolding count_members
Shared-or_few [] l1 l2 = inr (omega arith)
Shared-or_few (x ∷ view) l1 l2 = elim (Shared-or_few view l1 l2) [
  | inl (y, h, a, b) ↦ inl (y, inr h, a, b)
  | inr few ↦ elim (Bool-cases (isamember x l1)) [
    | inl a ↦ elim (Bool-cases (isamember x l2)) [
      | inl b ↦ inl (x, inl refl, a, b)
      | inr b ↦ inr (ground (arith, a, b, few))
    ]
    | inr a ↦ inr (ground (arith, a, few))
  ]
]

-- Two lists that each hold a majority of a view share a node of the view.
pub majority-majority :
    (view l1 l2 : List Bytes)
    → majority view l1 ≡ true
    → majority view l2 ≡ true
    → Shared view l1 l2
unfolding majority
majority-majority view l1 l2 h k = elim (Shared-or_few view l1 l2) [
  | inl s ↦ s
  | inr few ↦ absurd (omega (arith, leb→le _ _ h, leb→le _ _ k))
]

-- `isamember` finds exactly the nodes that stand in the list.
pub isamember→Has : (m : Bytes) (nodes : List Bytes) → isamember m nodes ≡ true → Has m nodes
unfolding isamember
isamember→Has m [] h = cc
isamember→Has m (x ∷ nodes) h = elim (Bool-cases (str_eq x m)) [
  | inl e ↦ inl (sym (str_eq→eq x m e))
  | inr e ↦ inr (isamember→Has m nodes (rw (e, isamember) at h))
]

pub Has→isamember : (m : Bytes) (nodes : List Bytes) → Has m nodes → isamember m nodes ≡ true
unfolding isamember
Has→isamember m [] h = absurd h
Has→isamember m (x ∷ nodes) (inl e) = ground (arith, e, str_eq_refl x)
Has→isamember m (x ∷ nodes) (inr h) = ground (arith, Has→isamember m nodes h)
