-- ===== src/Rpc/Poll/Select.antt =====
-- Which descriptors a round of the poll thread of rpc/pollmgr.cc reports.
use simple_distributed_files.Prelude.{
  ℕ, zero, suc, ◌<◌, ◌≤◌, ◌≡◌, refl, sym, ap, ◌∙◌, subst, inl, inr, Bool, true, false, not, ◌&&◌,
  ◌||◌, List, [], ◌∷◌, ◌++◌, Option, none, some, arith, ltb, ◌==◌, if◌then◌else◌, ==_iff,
  Bool-cases,
}
use native.Mathlib.Decide.{dec_lt}
use simple_distributed_files.Rpc.Poll.{
  PollFlag, cb_none, cb_rdonly, cb_wronly, cb_rdwr, cb_mask, FdSet, fd_clr, SelectAio, select_new,
  watch_fd, find_high, clear_fd, lower_high, unwatch_fd, collect, wait_ready,
}

-- Every descriptor that is watched is one that `select` looks at.
abbrev pub IsHigh : SelectAio → Type 0
IsHigh a = (fd : ℕ) → (a.rfds fd || a.wfds fd) ≡ true → fd ≤ a.highfds

pub select_new-IsHigh : (pipe : ℕ) → IsHigh (select_new pipe)
select_new-IsHigh pipe fd h = ground (arith, h)

watch_fd-IsHigh :
    (fd : ℕ) (flag : PollFlag) (a : SelectAio) → IsHigh a → IsHigh (watch_fd fd flag a)
unfolding watch_fd
watch_fd-IsHigh fd cb_none a i x h = ground (arith, h, i x)
watch_fd-IsHigh fd cb_rdonly a i x h = ground (arith, h, i x)
watch_fd-IsHigh fd cb_wronly a i x h = ground (arith, h, i x)
watch_fd-IsHigh fd cb_rdwr a i x h = ground (arith, h, i x)
watch_fd-IsHigh fd cb_mask a i x h = ground (arith, h, i x)

-- What the loop finds is at or above every descriptor it went by that is watched.
find_high-ge :
    (n : ℕ) (a : SelectAio) (fd : ℕ) → fd < n → (a.rfds fd || a.wfds fd) ≡ true → fd ≤ find_high n a
unfolding find_high
find_high-ge zero a fd below h = absurd (omega arith)
find_high-ge (suc n) a fd below h = elim (dec_lt fd n) [
  | yes less ↦ ground (arith, find_high-ge n a fd less h)
  | no last ↦ ground (arith, h)
]

lower_high_at :
    (fd : ℕ) (a : SelectAio)
    → IsHigh a
    → (x : ℕ) (b : Bool)
    → let l : SelectAio = if b then record a { highfds = find_high (suc a.highfds) a } else a in
      (l.rfds x || l.wfds x) ≡ true → x ≤ l.highfds
lower_high_at fd a i x true h = find_high-ge (suc a.highfds) a x (omega (arith, i x h)) h
lower_high_at fd a i x false h = i x h

lower_high-IsHigh : (fd : ℕ) (a : SelectAio) → IsHigh a → IsHigh (lower_high fd a)
unfolding lower_high
lower_high-IsHigh fd a i x h =
    lower_high_at fd a i x (not (a.rfds fd) && not (a.wfds fd) && fd == a.highfds) h

clr_le : (fd x : ℕ) (s : FdSet) → fd_clr fd s x ≡ true → s x ≡ true
clr_le fd x s h = ground (arith, h)

-- What `unwatch_fd` leaves is looked at by `select`.
abbrev Unwatched : Option (SelectAio × Bool) → Type 0
Unwatched none = Unit
Unwatched (some (b, gone)) = IsHigh b

unwatch_fd-IsHigh :
    (fd : ℕ) (flag : PollFlag) (a : SelectAio) → IsHigh a → Unwatched (unwatch_fd fd flag a)
unfolding unwatch_fd clear_fd
unwatch_fd-IsHigh fd cb_none a i = tt
unwatch_fd-IsHigh fd cb_rdonly a i =
    lower_high-IsHigh fd (record a { rfds = fd_clr fd a.rfds }) (λ x h. i x (ground (arith, h)))
unwatch_fd-IsHigh fd cb_wronly a i =
    lower_high-IsHigh fd (record a { wfds = fd_clr fd a.wfds }) (λ x h. i x (ground (arith, h)))
unwatch_fd-IsHigh fd cb_rdwr a i =
    lower_high-IsHigh fd (record a { rfds = fd_clr fd a.rfds; wfds = fd_clr fd a.wfds })
      (λ x h. i x (ground (arith, h)))
unwatch_fd-IsHigh fd cb_mask a i = tt

abbrev pub elem : ℕ → List ℕ → Bool
elem x [] = false
elem x (y ∷ ys) = x == y || elem x ys

elem-snoc : (x y : ℕ) (ys : List ℕ) → elem x (ys ++ y ∷ []) ≡ (elem x ys || x == y)
elem-snoc x y [] = ground arith
elem-snoc x y (z ∷ ys) = ground (arith, elem-snoc x y ys)

-- What the loop does at one descriptor.
elem_if :
    (b c : Bool) (fd n : ℕ) (xs : List ℕ)
    → elem fd (if b then xs else if c then xs ++ n ∷ [] else xs)
      ≡ (elem fd xs || (c && not b && fd == n))
elem_if true c fd n xs = ground arith
elem_if false true fd n xs = elem-snoc fd n xs
elem_if false false fd n xs = ground arith

collect_fst :
    (pipe n : ℕ) (r w : FdSet)
    → (collect pipe (suc n) r w).0 ≡ (
        if n == pipe && r n
        then (collect pipe n r w).0
        else if r n
        then (collect pipe n r w).0 ++ n ∷ []
        else (collect pipe n r w).0)
unfolding collect
collect_fst pipe n r w = elim (Bool-cases (n == pipe && r n)) [
  | inl e ↦ rw e refl
  | inr e ↦ rw e refl
]

collect_snd :
    (pipe n : ℕ) (r w : FdSet)
    → (collect pipe (suc n) r w).1 ≡ (
        if n == pipe && r n
        then (collect pipe n r w).1
        else if w n
        then (collect pipe n r w).1 ++ n ∷ []
        else (collect pipe n r w).1)
unfolding collect
collect_snd pipe n r w = elim (Bool-cases (n == pipe && r n)) [
  | inl e ↦ rw e refl
  | inr e ↦ rw e refl
]

up_to :
    (p : ℕ → Bool) (n fd : ℕ) → ((ltb fd n && p fd) || (p n && fd == n)) ≡ (ltb fd (suc n) && p fd)
up_to p n fd = elim (Bool-cases (fd == n)) [
  | inl e ↦
      let same : fd ≡ n = (==_iff fd n).0 e in
      subst (λ x. ((ltb x n && p x) || (p n && x == n)) ≡ (ltb x (suc n) && p x)) (sym same)
        (ground arith)
  | inr e ↦ ground (arith, e)
]

collect_readable :
    (pipe n : ℕ) (r w : FdSet) (fd : ℕ)
    → elem fd (collect pipe n r w).0 ≡ (ltb fd n && (r fd && not (fd == pipe && r fd)))
unfolding collect
collect_readable pipe zero r w fd = ground arith
collect_readable pipe (suc n) r w fd =
    ap (elem fd) (collect_fst pipe n r w)
    ∙ elem_if (n == pipe && r n) (r n) fd n (collect pipe n r w).0
    ∙ ap (λ b. b || ((r n && not (n == pipe && r n)) && fd == n)) (collect_readable pipe n r w fd)
    ∙ up_to (λ x. r x && not (x == pipe && r x)) n fd

collect_writable :
    (pipe n : ℕ) (r w : FdSet) (fd : ℕ)
    → elem fd (collect pipe n r w).1 ≡ (ltb fd n && (w fd && not (fd == pipe && r fd)))
unfolding collect
collect_writable pipe zero r w fd = ground arith
collect_writable pipe (suc n) r w fd =
    ap (elem fd) (collect_snd pipe n r w)
    ∙ elem_if (n == pipe && r n) (w n) fd n (collect pipe n r w).1
    ∙ ap (λ b. b || ((w n && not (n == pipe && r n)) && fd == n)) (collect_writable pipe n r w fd)
    ∙ up_to (λ x. w x && not (x == pipe && r x)) n fd

-- A call of the poll manager on the sets of descriptors.
pub data Change : Type 0 where
  watches unwatches : ℕ → PollFlag → Change

-- A call that a VERIFY ends changes nothing more.
unfoldable pub change : Change → SelectAio → SelectAio
change (watches fd flag) a = watch_fd fd flag a
change (unwatches fd flag) a = elim (unwatch_fd fd flag a) [ none ↦ a | some (b, gone) ↦ b ]

unfoldable pub change_all : List Change → SelectAio → SelectAio
change_all [] a = a
change_all (c ∷ cs) a = change_all cs (change c a)

unwatched :
    (a : SelectAio) (o : Option (SelectAio × Bool))
    → IsHigh a
    → Unwatched o
    → IsHigh (elim o as (λ p. SelectAio) [ none ↦ a | some (b, gone) ↦ b ])
unwatched a none i u = i
unwatched a (some (b, gone)) i u = u

change-IsHigh : (c : Change) (a : SelectAio) → IsHigh a → IsHigh (change c a)
unfolding change
change-IsHigh (watches fd flag) a i = watch_fd-IsHigh fd flag a i
change-IsHigh (unwatches fd flag) a i =
    unwatched a (unwatch_fd fd flag a) i (unwatch_fd-IsHigh fd flag a i)

change_all-IsHigh : (cs : List Change) (a : SelectAio) → IsHigh a → IsHigh (change_all cs a)
unfolding change_all
change_all-IsHigh [] a i = i
change_all-IsHigh (c ∷ cs) a i = change_all-IsHigh cs (change c a) (change-IsHigh c a i)

seen_if_high :
    (b c d : Bool) (fd high : ℕ)
    → (b ≡ true → fd ≤ high)
    → (ltb fd (suc high) && (b && not (c && d))) ≡ (b && not (c && d))
seen_if_high true c d fd high h = ground (arith, h refl)
seen_if_high false c d fd high h = ground arith

-- After any sequence of `watch_fd` and `unwatch_fd`, and whichever of the watched descriptors
-- `select` finds ready, a round reports as readable exactly the readable ones, and as writable
-- exactly the writable ones, but in both lists not the poll manager's own pipe once it is readable:
-- the highest descriptor that is kept leaves none of them out.
pub wait_ready_lem :
    (cs : List Change) (pipe : ℕ) (trfds twfds : FdSet) (fd : ℕ)
    → ((x : ℕ) → trfds x ≡ true → (change_all cs (select_new pipe)).rfds x ≡ true)
    → ((x : ℕ) → twfds x ≡ true → (change_all cs (select_new pipe)).wfds x ≡ true)
    → let a : SelectAio = change_all cs (select_new pipe) in
      let own : Bool = fd == a.pipe && trfds fd in
      (elem fd (wait_ready trfds twfds a).0 ≡ (trfds fd && not own))
      × (elem fd (wait_ready trfds twfds a).1 ≡ (twfds fd && not own))
unfolding wait_ready
wait_ready_lem cs pipe r w fd hr hw =
    let a = change_all cs (select_new pipe) in
    let i = change_all-IsHigh cs (select_new pipe) (select_new-IsHigh pipe) in
    (
      collect_readable a.pipe (suc a.highfds) r w fd
          ∙ seen_if_high (r fd) (fd == a.pipe) (r fd) fd a.highfds
              (λ h. i fd (ground (arith, hr fd h))),
      collect_writable a.pipe (suc a.highfds) r w fd
          ∙ seen_if_high (w fd) (fd == a.pipe) (r fd) fd a.highfds
              (λ h. i fd (ground (arith, hw fd h))),
    )

-- What is not watched is not reported.
pub wait_ready-unset :
    (trfds twfds : FdSet) (a : SelectAio) (fd : ℕ)
    → trfds fd ≡ false
    → twfds fd ≡ false
    → (elem fd (wait_ready trfds twfds a).0 || elem fd (wait_ready trfds twfds a).1) ≡ false
unfolding wait_ready
wait_ready-unset r w a fd hr hw = ground (
  arith,
  collect_readable a.pipe (suc a.highfds) r w fd,
  collect_writable a.pipe (suc a.highfds) r w fd,
  hr,
  hw,
)
