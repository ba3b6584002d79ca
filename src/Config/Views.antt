-- ===== src/Config/Views.antt =====
-- Views as text, views after a commit and after a restart, and whom a heartbeat round removes.
use simple_distributed_files.Prelude.{
  ℕ, zero, suc, ◌+◌, ◌%◌, ◌≤◌, ◌<◌, ◌≡◌, ◌≢◌, refl, sym, ap, ◌∙◌, subst, ◌⊎◌, inl, inr, Bool, true,
  false, ◌&&◌, List, [], ◌∷◌, ◌++◌, none, some, arith, Bytes, ◌==◌, if◌then◌else◌, str_eq,
  str_eq_refl, str_lt, length, length-append, All, All-append, Has, Bool-cases, some_inj,
  none_ne_some, ==_iff,
}
use simple_distributed_files.Text.Stream.{
  open_text, read_word, IsWord, read_word-append, read_word-space, is_space, skip_space,
}
use simple_distributed_files.Paxos.Acceptor.{Acceptor, commit, commit_wo, u32_mod}
use simple_distributed_files.Paxos.Proposer.{isamember}
use simple_distributed_files.Config.{
  Config, read_words, members, value, get_view, reconstruct, paxos_commit, add, without, remove_wo,
  Proposal, Beat, is_fine, least, ping_rest, heartbeat_round,
}

read_words_step :
    (f : ℕ) (old word r t : Bytes)
    → read_word old (open_text t) ≡ (word, open_text r)
    → read_words (suc f) old (open_text t) ≡ word ∷ read_words f word (open_text r)
unfolding read_words
read_words_step f old word r t e =
    subst
      (λ p.
        (elim p.1.good [ false ↦ [] | true ↦ p.0 ∷ read_words f p.0 p.1 ])
        ≡ word ∷ read_words f word (open_text r))
      (sym e) refl

read_words_end : (f : ℕ) (old : Bytes) → read_words (suc f) old (open_text (32 ∷ [])) ≡ []
unfolding read_words read_word skip_space is_space
read_words_end f old = refl

space_word :
    (old m r : Bytes)
    → IsWord m
    → read_word old (open_text (32 ∷ (m ++ (32 ∷ r)))) ≡ (m, open_text (32 ∷ r))
unfolding is_space
space_word old m r h =
    read_word-space old (m ++ (32 ∷ r)) 32 refl ∙ read_word-append old m (32 ∷ r) h refl

first_word :
    (m r : Bytes) → IsWord m → read_word [] (open_text (m ++ (32 ∷ r))) ≡ (m, open_text (32 ∷ r))
unfolding is_space
first_word m r h = read_word-append [] m (32 ∷ r) h refl

-- The words that follow a space.
read_words-value :
    (f : ℕ) (old : Bytes) (ms : List Bytes)
    → All IsWord ms
    → length ms < f
    → read_words f old (open_text (32 ∷ value ms)) ≡ ms
unfolding value
read_words-value zero old ms h le = absurd (omega (arith, le))
read_words-value (suc f) old [] h le = read_words_end f old
read_words-value (suc f) old (m ∷ ms) h le =
    read_words_step f old m (32 ∷ value ms) _ (space_word old m (value ms) h.0)
    ∙ ap (◌∷◌ m) (read_words-value f m ms h.1 (omega (arith, le)))

length-value : (ms : List Bytes) → length ms ≤ length (value ms)
unfolding value
length-value [] = omega arith
length-value (m ∷ ms) = omega (arith, length-append m (32 ∷ value ms), length-value ms)

no_words : read_words 1 [] (open_text []) ≡ []
unfolding read_words read_word skip_space
no_words = refl

-- A view of words is read back from its value as it was written.
pub members-value : (ms : List Bytes) → All IsWord ms → members (value ms) ≡ ms
unfolding members value
members-value [] h = no_words
members-value (m ∷ ms) h =
    read_words_step (length (m ++ (32 ∷ value ms))) [] m (32 ∷ value ms) _
      (first_word m (value ms) h.0)
    ∙ ap (◌∷◌ m) (
        read_words-value (length (m ++ (32 ∷ value ms))) m ms h.1
          (omega (arith, length-append m (32 ∷ value ms), length-value ms)))

-- The value that `add` proposes makes the new node a member behind those of the view, once it is
-- committed; the nodes asked are those of the view. The nodes' names are words.
pub add-paxos_commit :
    (new_m : Bytes) (vid i : ℕ) (nodes : List Bytes) (v : Bytes) (c : Config)
    → All IsWord c.mems
    → IsWord new_m
    → add new_m vid c ≡ some (i, nodes, v)
    → ((paxos_commit i v c).mems ≡ c.mems ++ new_m ∷ [])
      × ((paxos_commit i v c).myvid ≡ i)
      × (nodes ≡ c.mems)
unfolding add paxos_commit
add-paxos_commit new_m vid i nodes v c words word e = elim (Bool-cases (vid == c.myvid)) [
  | inl current ↦
      let q : ((c.myvid + 1) % u32_mod, c.mems, value (c.mems ++ new_m ∷ [])) ≡ (i, nodes, v) =
        some_inj (rw (current, add) at e) in
      (
        ap members (sym (ap (λ (p : Proposal). p.2) q))
            ∙ members-value (c.mems ++ new_m ∷ [])
                (All-append IsWord c.mems (new_m ∷ []) words (word, tt)),
        refl,
        sym (ap (λ (p : Proposal). p.1) q),
      )
  | inr old ↦ absurd (none_ne_some (rw (old, add) at e))
]

without-words : (m : Bytes) (ms : List Bytes) → All IsWord ms → All IsWord (without m ms)
unfolding without
without-words m [] h = tt
without-words m (x ∷ ms) h = elim (Bool-cases (str_eq x m)) [
  | inl same ↦ rw (same, without) (without-words m ms h.1)
  | inr other ↦ rw (other, without) (h.0, without-words m ms h.1)
]

isamember-without : (m : Bytes) (ms : List Bytes) → isamember m (without m ms) ≡ false
unfolding without isamember
isamember-without m [] = refl
isamember-without m (x ∷ ms) = ground (arith, isamember-without m ms)

-- The value that `remove_wo` proposes, once it is committed, makes a view without the node that
-- has the others in their order. The nodes' names are words.
pub remove_wo-paxos_commit :
    (m : Bytes) (c : Config)
    → All IsWord c.mems
    → let (i, nodes, v) = remove_wo m c in
      ((paxos_commit i v c).mems ≡ without m c.mems)
      × (isamember m (paxos_commit i v c).mems ≡ false)
unfolding remove_wo paxos_commit
remove_wo-paxos_commit m c words =
    let e : members (value (without m c.mems)) ≡ without m c.mems =
      members-value (without m c.mems) (without-words m c.mems words) in
    (e, ap (isamember m) e ∙ isamember-without m c.mems)

-- When a further instance is committed, the view that the upcall gives a running node is the view
-- that a node reconstructs from the acceptor.
reconstruct-commit :
    (i : ℕ) (v : Bytes) (acc : Acceptor) (c d : Config)
    → acc.instance_h < i
    → ((reconstruct (commit i v acc) d).myvid ≡ (paxos_commit i v c).myvid)
      × ((reconstruct (commit i v acc) d).mems ≡ (paxos_commit i v c).mems)
unfolding reconstruct paxos_commit commit commit_wo get_view
reconstruct-commit i v acc c d h = ground arith

least_step :
    (m x : Bytes) (xs : List Bytes) (b : Bool)
    → (least m xs ≡ m) ⊎ Has (least m xs) xs
    → (least x xs ≡ x) ⊎ Has (least x xs) xs
    → let l = least (if b then x else m) xs in (l ≡ m) ⊎ ((l ≡ x) ⊎ Has l xs)
least_step m x xs true h k = inr k
least_step m x xs false (inl e) k = inl e
least_step m x xs false (inr h) k = inr (inr h)

least_or : (m : Bytes) (xs : List Bytes) → (least m xs ≡ m) ⊎ Has (least m xs) xs
unfolding least
least_or m [] = inl refl
least_or m (x ∷ xs) = least_step m x xs (str_lt x m) (least_or m xs) (least_or x xs)

str_eq_self_ne : (x me : Bytes) → str_eq x me ≡ false → x ≢ me
str_eq_self_ne x me h e = ground (arith, str_eq_refl me, e, h)

ping_rest_lem :
    (me m : Bytes) (beat : Bytes → Beat) (xs : List Bytes)
    → ping_rest me beat xs ≡ some m
    → Has m xs × (str_eq m me ≡ false) × (is_fine (beat m) ≡ false)
unfolding ping_rest
ping_rest_lem me m beat [] e = absurd (none_ne_some e)
ping_rest_lem me m beat (x ∷ xs) e = ground (arith, ping_rest_lem me m beat xs, e)

later_least :
    (me : Bytes) (xs : List Bytes)
    → str_eq (least me xs) me ≡ false
    → Has (least me xs) xs × (least me xs ≢ me)
later_least me xs later =
    let other : least me xs ≢ me = str_eq_self_ne (least me xs) me later in
    (elim (least_or me xs) [ inl same ↦ absurd (other same) | inr h ↦ h ], other)

-- The choice of a round, once the node is known to be a member.
suspect_lem :
    (me m : Bytes) (cmems : List Bytes) (beat : Bytes → Beat)
    → (if str_eq (least me cmems) me
        then ping_rest me beat cmems
        else if is_fine (beat (least me cmems))
        then none
        else some (least me cmems))
      ≡ some m
    → Has m cmems × (m ≢ me) × (is_fine (beat m) ≡ false)
suspect_lem me m cmems beat e = elim (Bool-cases (str_eq (least me cmems) me)) [
  | inl first ↦
      let (h, n, f) = ping_rest_lem me m beat cmems (rw first at e) in (h, str_eq_self_ne m me n, f)
  | inr later ↦ elim (Bool-cases (is_fine (beat (least me cmems)))) [
    | inl f ↦ absurd (none_ne_some (rw (later, f) at e))
    | inr f ↦
        let (h, n) = later_least me cmems later in
        subst (λ x. Has x cmems × (x ≢ me) × (is_fine (beat x) ≡ false))
          (some_inj (rw (later, f) at e)) (h, n, f)
  ]
]

both : (a b : Bool) → (a && b) ≡ true → (a ≡ true) × (b ≡ true)
both true true h = (refl, refl)
both true false h = absurd (cc h)
both false b h = absurd (cc h)

-- A heartbeat round removes only a node of the view that is not the node itself, and that failed
-- to answer; and only if the node is a member and the view has not changed meanwhile.
heartbeat_round_lem :
    (me m : Bytes) (cmems : List Bytes) (beat : Bytes → Beat) (vid vid' : ℕ)
    → heartbeat_round me cmems beat vid vid' ≡ some m
    → (isamember me cmems ≡ true)
      × (vid ≡ vid')
      × Has m cmems
      × (m ≢ me)
      × (is_fine (beat m) ≡ false)
unfolding heartbeat_round
heartbeat_round_lem me m cmems beat vid vid' e =
    elim (Bool-cases (isamember me cmems && vid == vid')) [
      | inl active ↦
          let (member, same) = both (isamember me cmems) (vid == vid') active in
          let (h, n, f) = suspect_lem me m cmems beat (rw (active, heartbeat_round) at e) in
          (member, (==_iff vid vid').0 same, h, n, f)
      | inr idle ↦ absurd (none_ne_some (rw (idle, heartbeat_round) at e))
    ]
