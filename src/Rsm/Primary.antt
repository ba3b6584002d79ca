-- ===== src/Rsm/Primary.antt =====
-- The primary of a replicated service (rsm.cc): when a view has one, and that it is a node of the
-- view.
use simple_distributed_files.Prelude.{
  ℕ, ◌+◌, ◌-◌, ◌≤◌, ◌<◌, ◌≡◌, ◌≢◌, ◌⊎◌, inl, inr, refl, sym, ap, ◌∙◌, subst, true, false, List, [],
  ◌∷◌, Option, none, some, Bytes, arith, leb, Bool-cases, str_eq, str_eq_refl, Has, All,
  if◌then◌else◌, some_inj,
}
use native.Mathlib.Decide.{dec_lt}
use simple_distributed_files.Paxos.Acceptor.{Acceptor}
use simple_distributed_files.Paxos.Proposer.{isamember}
use simple_distributed_files.Config.{get_view}
use simple_distributed_files.Rsm.{Rsm, rsm_new, first_member, choose, set_primary, commit_change_wo}

false_ne_true : false ≡ true → ⊥
false_ne_true e = cc

first_member-isamember :
    (p c : List Bytes) (x : Bytes) → first_member p c ≡ some x → isamember x c ≡ true
unfolding first_member
first_member-isamember [] c x e = cc
first_member-isamember (y ∷ p) c x e = elim (Bool-cases (isamember y c)) [
  | inl there ↦
      let q : y ≡ x = some_inj (rw (there, first_member) at e) in
      subst (λ z. isamember z c ≡ true) q there
  | inr gone ↦ first_member-isamember p c x (rw (gone, first_member) at e)
]

first_member-some :
    (p c : List Bytes) (x : Bytes)
    → Has x p
    → isamember x c ≡ true
    → (q : Bytes) × (first_member p c ≡ some q)
unfolding first_member
first_member-some [] c x h e = absurd h
first_member-some (y ∷ p) c x h e = elim (Bool-cases (isamember y c)) [
  | inl there ↦ (y, rw (there, first_member) refl)
  | inr gone ↦ elim h [
    | inl same ↦ absurd (false_ne_true (sym gone ∙ ap (λ z. isamember z c) (sym same) ∙ e))
    | inr later ↦ let (q, r) = first_member-some p c x later e in (q, rw (gone, first_member) r)
  ]
]

choose_keeps :
    (c p : List Bytes) (primary : Bytes)
    → isamember primary c ≡ true
    → choose c p primary ≡ some primary
unfolding choose isamember
choose_keeps [] p primary e = cc
choose_keeps (x ∷ c) p primary e = rw e refl

choose-some :
    (c p : List Bytes) (primary x : Bytes)
    → Has x p
    → isamember x c ≡ true
    → (q : Bytes) × (choose c p primary ≡ some q)
unfolding choose
choose-some [] p primary x h e = absurd (false_ne_true (unfold isamember in e))
choose-some (y ∷ c) p primary x h e = elim (Bool-cases (isamember primary (y ∷ c))) [
  | inl stays ↦ (primary, rw (stays, choose) refl)
  | inr gone ↦ let (q, r) = first_member-some p (y ∷ c) x h e in (q, rw (gone, choose) r)
]

choose-isamember :
    (c p : List Bytes) (primary q : Bytes) → choose c p primary ≡ some q → isamember q c ≡ true
unfolding choose
choose-isamember [] p primary q e = cc
choose-isamember (y ∷ c) p primary q e = elim (Bool-cases (isamember primary (y ∷ c))) [
  | inl stays ↦ subst (λ z. isamember z (y ∷ c) ≡ true) (some_inj (rw (stays, choose) at e)) stays
  | inr gone ↦ first_member-isamember p (y ∷ c) q (rw (gone, choose) at e)
]

-- The commits of views that a node sees, in the views that one acceptor has.
unfoldable pub commit_all : List ℕ → Acceptor → Rsm → Option Rsm
commit_all [] acc r = some r
commit_all (vid ∷ vids) acc r = elim (commit_change_wo vid acc r) [
  | none ↦ none
  | some r' ↦ commit_all vids acc r'
]

-- Each view up to a number shares a node with the one before; the first has the first primary.
pub record AreLinked (first : Bytes) (acc : Acceptor) (last : ℕ) : Type 0 where
  pub begins : isamember first (get_view acc 1) ≡ true
  pub shares :
      (v : ℕ)
      → 1 < v
      → v ≤ last
      → (x : Bytes) × Has x (get_view acc (v - 1)) × (isamember x (get_view acc v) ≡ true)

abbrev pub later : ℕ → List ℕ → ℕ
later v [] = v
later v (w ∷ ws) = later (if leb w v then v else w) ws

-- The node has the first primary, or one of the view that it committed last.
abbrev IsLed : Bytes → Acceptor → Rsm → Type 0
IsLed first acc r =
    ((r.vid_commit ≡ 0) × (r.primary ≡ first))
    ⊎ ((0 < r.vid_commit) × (isamember r.primary (get_view acc r.vid_commit) ≡ true))

chosen :
    (first primary : Bytes) (acc : Acceptor) (last vid before : ℕ)
    → AreLinked first acc last
    → before < vid
    → vid ≤ last
    → ((before ≡ 0) × (primary ≡ first))
      ⊎ ((0 < before) × (isamember primary (get_view acc before) ≡ true))
    → (q : Bytes) × (set_primary vid acc primary ≡ some q)
unfolding set_primary
chosen first primary acc last vid before a above le led = elim (dec_lt 1 vid) [
  | yes far ↦
      let (x, h, e) = a.shares vid far le in
      choose-some (get_view acc vid) (get_view acc (vid - 1)) primary x h e
  | no near ↦ elim led [
    | inr past ↦ absurd (omega (arith, near, above, past.0))
    | inl fresh ↦
        let one : 1 ≡ vid = omega (arith, near, above) in
        let there : isamember primary (get_view acc vid) ≡ true =
          ap (λ z. isamember z (get_view acc vid)) fresh.1
          ∙ subst (λ v. isamember first (get_view acc v) ≡ true) one a.begins in
        (primary, choose_keeps (get_view acc vid) (get_view acc (vid - 1)) primary there)
  ]
]

commit-IsLed :
    (first : Bytes) (acc : Acceptor) (last vid : ℕ) (r : Rsm)
    → AreLinked first acc last
    → vid ≤ last
    → r.break2 ≡ false
    → IsLed first acc r
    → (r' : Rsm) × (commit_change_wo vid acc r ≡ some r')
      × (r'.vid_commit ≡ (if leb vid r.vid_commit then r.vid_commit else vid))
      × (r'.break2 ≡ false)
      × IsLed first acc r'
unfolding commit_change_wo
commit-IsLed first acc last vid r a le b led = elim (Bool-cases (leb vid r.vid_commit)) [
  | inl old ↦ (r, rw (old, commit_change_wo) refl, rw old refl, b, led)
  | inr new ↦
      let above : r.vid_commit < vid = ground (arith, new) in
      let (q, e) = chosen first r.primary acc last vid r.vid_commit a above le led in
      (
        record r { vid_commit = vid; inviewchange = true; primary = q },
        ground (arith, new, e, b),
        rw new refl,
        b,
        inr (
          omega (arith, above),
          choose-isamember (get_view acc vid) (get_view acc (vid - 1)) r.primary q
              (unfold set_primary in e),
        ),
      )
]

commit_all-IsLed :
    (vids : List ℕ) (first : Bytes) (acc : Acceptor) (last : ℕ) (r : Rsm)
    → AreLinked first acc last
    → All (λ v. v ≤ last) vids
    → r.break2 ≡ false
    → IsLed first acc r
    → (r' : Rsm) × (commit_all vids acc r ≡ some r')
      × (r'.vid_commit ≡ later r.vid_commit vids)
      × IsLed first acc r'
unfolding commit_all
commit_all-IsLed [] first acc last r a le b led = (r, refl, refl, led)
commit_all-IsLed (vid ∷ vids) first acc last r a le b led =
    let (r1, e1, v1, b1, led1) = commit-IsLed first acc last vid r a le.0 b led in
    let (r', e', v', led') = commit_all-IsLed vids first acc last r1 a le.1 b1 led1 in
    (r', rw (e1, commit_all) e', v' ∙ ap (λ v. later v vids) v1, led')

-- A node survives the views that it commits, in any order and with gaps, if each view up to the
-- last shares a node with the one before and the first has the first primary, and no breakpoint is
-- set: it has then committed the latest of them, and its primary is the first one, if it committed
-- none, or a node of that view.
pub commit_all_lem :
    (vids : List ℕ) (first me : Bytes) (garbage : ℕ) (acc : Acceptor) (last : ℕ)
    → AreLinked first acc last
    → All (λ v. v ≤ last) vids
    → (r : Rsm) × (commit_all vids acc (rsm_new first me garbage) ≡ some r)
      × (r.vid_commit ≡ later 0 vids)
      × (((r.vid_commit ≡ 0) × (r.primary ≡ first))
          ⊎ ((0 < r.vid_commit) × (isamember r.primary (get_view acc r.vid_commit) ≡ true)))
commit_all_lem vids first me garbage acc last a le =
    commit_all-IsLed vids first acc last (rsm_new first me garbage) a le refl (inl (refl, refl))

first_member_before :
    (p c : List Bytes) (x : Bytes) → first_member p c ≡ some x → isamember x p ≡ true
unfolding first_member isamember
first_member_before [] c x e = cc
first_member_before (y ∷ p) c x e = elim (Bool-cases (isamember y c)) [
  | inl there ↦
      let q : y ≡ x = some_inj (rw (there, first_member) at e) in
      ground (arith, str_eq_refl y, ap (str_eq y) q)
  | inr gone ↦ ground (arith, first_member_before p c x (rw (gone, first_member) at e))
]

choose_before :
    (c p : List Bytes) (primary q : Bytes)
    → isamember primary p ≡ true
    → choose c p primary ≡ some q
    → isamember q p ≡ true
unfolding choose
choose_before [] p primary q h e = cc
choose_before (y ∷ c) p primary q h e = elim (Bool-cases (isamember primary (y ∷ c))) [
  | inl stays ↦ subst (λ z. isamember z p ≡ true) (some_inj (rw (stays, choose) at e)) h
  | inr gone ↦ first_member_before p (y ∷ c) q (rw (gone, choose) at e)
]

commit_chooses :
    (vid : ℕ) (acc : Acceptor) (r r' : Rsm)
    → r.vid_commit < vid
    → commit_change_wo vid acc r ≡ some r'
    → (set_primary vid acc r.primary ≡ some r'.primary) × (r'.vid_commit ≡ vid)
unfolding commit_change_wo
commit_chooses vid acc r r' above e = (ground (arith, above, e), ground (arith, above, e))

-- Nodes do not agree on the primary: if a node's primary is missing in the next view and back in
-- the one after, then a node that commits both gives it up, while one with the same primary that
-- commits only the second, as a node that joins does, keeps it.
pub primaries_disagree :
    (acc : Acceptor) (v : ℕ) (r s r1 r2 s' : Rsm)
    → r.vid_commit ≤ v
    → s.vid_commit ≤ v
    → s.primary ≡ r.primary
    → isamember r.primary (get_view acc (v + 1)) ≡ false
    → isamember r.primary (get_view acc (v + 2)) ≡ true
    → commit_change_wo (v + 1) acc r ≡ some r1
    → commit_change_wo (v + 2) acc r1 ≡ some r2
    → commit_change_wo (v + 2) acc s ≡ some s'
    → (s'.primary ≡ r.primary) × (r2.primary ≢ r.primary)
unfolding set_primary
primaries_disagree acc v r s r1 r2 s' old old' same gone back e1 e2 e3 =
    let first = commit_chooses (v + 1) acc r r1 (omega (arith, old)) e1 in
    let second = commit_chooses (v + 2) acc r1 r2 (omega (arith, first.1)) e2 in
    let joins = commit_chooses (v + 2) acc s s' (omega (arith, old')) e3 in
    let now = get_view acc (v + 2) in
    let before : get_view acc (v + 2 - 1) ≡ get_view acc (v + 1) =
      ap (get_view acc) (omega arith) in
    let member : isamember r1.primary (get_view acc (v + 1)) ≡ true =
      choose-isamember (get_view acc (v + 1)) _ r.primary r1.primary first.0 in
    let still : isamember r2.primary (get_view acc (v + 1)) ≡ true =
      choose_before now (get_view acc (v + 1)) r1.primary r2.primary member
        (subst (λ p. choose now p r1.primary ≡ some r2.primary) before second.0) in
    (
      some_inj (sym joins.0 ∙ choose_keeps now _ s.primary (ap (λ z. isamember z now) same ∙ back))
          ∙ same,
      λ q. false_ne_true (sym gone ∙ ap (λ z. isamember z (get_view acc (v + 1))) (sym q) ∙ still),
    )
