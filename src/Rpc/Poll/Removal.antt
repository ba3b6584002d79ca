-- ===== src/Rpc/Poll/Removal.antt =====
-- What a thread that took a descriptor out of rpc/pollmgr.cc can rely on, in whatever order the
-- threads take their turns.
use simple_distributed_files.Prelude.{
  ℕ, ◌≡◌, refl, sym, ap, ◌∙◌, subst, inl, inr, Bool, true, false, not, ◌&&◌, ◌||◌, List, [], ◌∷◌,
  Option, none, some, arith, ◌==◌, if◌then◌else◌, ==_iff, Bool-cases,
}
use simple_distributed_files.Rpc.Poll.{
  PollFlag, cb_none, cb_rdonly, cb_wronly, cb_rdwr, cb_mask, FdSet, fd_put, SelectAio, watch_fd,
  clear_fd, lower_high, unwatch_fd, PollMgr, set_callback, add_callback, del_callback,
  block_remove_fd, removed,
}
use simple_distributed_files.Rpc.Poll.Select.{elem, wait_ready-unset}
use simple_distributed_files.Rpc.Poll.Turns.{
  Phase, top, polls, serves, Polling, polling_new, loop_top, loop_polls, Turn, adds, dels, blocks,
  returns, begins, waits, reads, writes, ends, Turns, done, next,
}

-- The poll thread may serve this descriptor before it looks at what is watched again.
abbrev pub is_served : ℕ → Phase → Bool
is_served fd top = false
is_served fd polls = false
is_served fd (serves readable writable) = elem fd readable || elem fd writable

abbrev pub watched : ℕ → SelectAio → Bool
watched fd a = a.rfds fd || a.wfds fd

-- Nobody watches a descriptor that is removed, the broadcast is still to come, and once it came
-- the poll thread has no such descriptor in its lists.
pub record IsRemoved {A : Type 0} (p : Polling A) : Type 0 where
  pub unwatched : (fd : ℕ) → (p.removing fd || p.gone fd) ≡ true → watched fd p.mgr.aio ≡ false
  pub unserved : (fd : ℕ) → p.gone fd ≡ true → is_served fd p.phase ≡ false

watch_other :
    (fd x : ℕ) (flag : PollFlag) (a : SelectAio)
    → (x == fd) ≡ false
    → watched x (watch_fd fd flag a) ≡ watched x a
unfolding watch_fd
watch_other fd x cb_none a h = ground (arith, h)
watch_other fd x cb_rdonly a h = ground (arith, h)
watch_other fd x cb_wronly a h = ground (arith, h)
watch_other fd x cb_rdwr a h = ground (arith, h)
watch_other fd x cb_mask a h = ground (arith, h)

lower_same : (fd x : ℕ) (a : SelectAio) → watched x (lower_high fd a) ≡ watched x a
unfolding lower_high
lower_same fd x a = elim (Bool-cases (not (a.rfds fd) && not (a.wfds fd) && fd == a.highfds)) [
  | inl e ↦ rw e refl
  | inr e ↦ rw e refl
]

-- What `unwatch_fd` returns watches no more than before, and with CB_RDWR not the descriptor.
abbrev Less : ℕ → PollFlag → SelectAio → Option (SelectAio × Bool) → Type 0
Less fd flag a none = Unit
Less fd flag a (some (b, gone)) =
    ((x : ℕ) → watched x a ≡ false → watched x b ≡ false) × (flag ≡ cb_rdwr → watched fd b ≡ false)

lowered :
    (fd : ℕ) (flag : PollFlag) (a b : SelectAio)
    → ((x : ℕ) → watched x a ≡ false → watched x b ≡ false)
    → (flag ≡ cb_rdwr → watched fd b ≡ false)
    → Less fd flag a (some (lower_high fd b, true))
lowered fd flag a b less rdwr =
    (λ x h. lower_same fd x b ∙ less x h, λ e. lower_same fd fd b ∙ rdwr e)

unwatch-Less : (fd : ℕ) (flag : PollFlag) (a : SelectAio) → Less fd flag a (unwatch_fd fd flag a)
unfolding unwatch_fd clear_fd
unwatch-Less fd cb_none a = tt
unwatch-Less fd cb_rdonly a =
    lowered fd cb_rdonly a _ (λ x h. ground (arith, h)) (λ e. absurd (cc e))
unwatch-Less fd cb_wronly a =
    lowered fd cb_wronly a _ (λ x h. ground (arith, h)) (λ e. absurd (cc e))
unwatch-Less fd cb_rdwr a = lowered fd cb_rdwr a _ (λ x h. ground (arith, h)) (λ e. ground arith)
unwatch-Less fd cb_mask a = tt

unset : (b c : Bool) → (b ≡ true → c ≡ true) → c ≡ false → b ≡ false
unset true c h e = absurd (cc (h refl, e))
unset false c h e = refl

module _ {A : Type 0} where
  add_aio :
      (same : A → A → Bool) (fd : ℕ) (flag : PollFlag) (ch : A) (m n : PollMgr A)
      → add_callback same fd flag ch m ≡ some n
      → n.aio ≡ watch_fd fd flag m.aio
  unfolding add_callback
  add_aio same fd flag ch m n e = ground (arith, e)

  abbrev DelLess : ℕ → PollFlag → PollMgr A → Option (PollMgr A) → Type 0
  DelLess fd flag m none = Unit
  DelLess fd flag m (some n) =
      ((x : ℕ) → watched x m.aio ≡ false → watched x n.aio ≡ false)
      × (flag ≡ cb_rdwr → watched fd n.aio ≡ false)

  del_at :
      (fd : ℕ) (flag : PollFlag) (m : PollMgr A) (o : Option (SelectAio × Bool))
      → Less fd flag m.aio o
      → DelLess fd flag m (elim o as (λ x. Option (PollMgr A)) [
        | none ↦ none
        | some x ↦ some (record m {
          aio = x.0;
          callbacks = if x.1 then set_callback fd none m.callbacks else m.callbacks;
        })
      ])
  del_at fd flag m none h = h
  del_at fd flag m (some (a, gone)) h = h

  block_at :
      (fd : ℕ) (m : PollMgr A) (o : Option (SelectAio × Bool))
      → Less fd cb_rdwr m.aio o
      → DelLess fd cb_rdwr m (elim o as (λ x. Option (PollMgr A)) [
        | none ↦ none
        | some x ↦ some (record m { aio = x.0; pending_change = true })
      ])
  block_at fd m none h = h
  block_at fd m (some (a, gone)) h = h

  del_less : (fd : ℕ) (flag : PollFlag) (m : PollMgr A) → DelLess fd flag m (del_callback fd flag m)
  unfolding del_callback
  del_less fd flag m = del_at fd flag m (unwatch_fd fd flag m.aio) (unwatch-Less fd flag m.aio)

  block_less : (fd : ℕ) (m : PollMgr A) → DelLess fd cb_rdwr m (block_remove_fd fd m)
  unfolding block_remove_fd
  block_less fd m = block_at fd m (unwatch_fd fd cb_rdwr m.aio) (unwatch-Less fd cb_rdwr m.aio)

  -- A change of what is watched by a thread other than the poll thread.
  mgr_changed :
      (p : Polling A) (m : PollMgr A)
      → IsRemoved p
      → ((x : ℕ) → watched x p.mgr.aio ≡ false → watched x m.aio ≡ false)
      → IsRemoved (record p { mgr = m })
  mgr_changed p m i less = record {
    unwatched = λ x h. less x (i.unwatched x h);
    unserved = i.unserved;
  }

  added :
      (same : A → A → Bool) (p : Polling A) (fd : ℕ) (flag : PollFlag) (ch : A) (m : PollMgr A)
      → IsRemoved p
      → p.removing fd ≡ false
      → m.aio ≡ watch_fd fd flag p.mgr.aio
      → IsRemoved (record p { mgr = m; gone = λ x. p.gone x && not (x == fd) })
  added same p fd flag ch m i free e = record {
    unwatched = λ x h. ap (watched x) e ∙ elim (Bool-cases (x == fd)) [
      | inl s ↦
          let same : x ≡ fd = (==_iff x fd).0 s in
          absurd (ground (arith, s, h, ap p.removing same, free))
      | inr n ↦ watch_other fd x flag p.mgr.aio n ∙ i.unwatched x (ground (arith, h))
    ];
    unserved = λ x h. i.unserved x (ground (arith, h));
  }

  blocked :
      (p : Polling A) (fd : ℕ) (m : PollMgr A)
      → IsRemoved p
      → DelLess fd cb_rdwr p.mgr (some m)
      → IsRemoved (record p { mgr = m; removing = fd_put fd p.removing })
  blocked p fd m i (less, rdwr) = record {
    unwatched = λ x h. elim (Bool-cases (x == fd)) [
      | inl s ↦ subst (λ y. watched y m.aio ≡ false) (sym ((==_iff x fd).0 s)) (rdwr refl)
      | inr n ↦ less x (i.unwatched x (ground (arith, h, n)))
    ];
    unserved = i.unserved;
  }

  loop_top_at :
      (b : Bool) (p : Polling A)
      → IsRemoved p
      → IsRemoved (loop_top (record p { mgr = record p.mgr { pending_change = b } }))
  unfolding loop_top
  loop_top_at true p i = record { unwatched = i.unwatched; unserved = λ fd h. refl }
  loop_top_at false p i = record { unwatched = i.unwatched; unserved = λ fd h. refl }

  loop_top-IsRemoved : (p : Polling A) → IsRemoved p → IsRemoved (loop_top p)
  loop_top-IsRemoved p = loop_top_at p.mgr.pending_change p

  loop_polls-IsRemoved :
      (r w : FdSet) (p : Polling A)
      → IsRemoved p
      → ((x : ℕ) → r x ≡ true → p.mgr.aio.rfds x ≡ true)
      → ((x : ℕ) → w x ≡ true → p.mgr.aio.wfds x ≡ true)
      → IsRemoved (loop_polls r w p)
  unfolding loop_polls
  loop_polls-IsRemoved r w p i hr hw = record {
    unwatched = i.unwatched;
    unserved = λ fd h.
        let off : watched fd p.mgr.aio ≡ false = i.unwatched fd (ground (arith, h)) in
        wait_ready-unset r w p.mgr.aio fd
          (unset (r fd) (p.mgr.aio.rfds fd) (hr fd) (ground (arith, off)))
          (unset (w fd) (p.mgr.aio.wfds fd) (hw fd) (ground (arith, off)));
  }

  served :
      (p : Polling A) (q r s t : List ℕ)
      → IsRemoved p
      → p.phase ≡ serves q r
      → ((fd : ℕ) → (elem fd q || elem fd r) ≡ false → (elem fd s || elem fd t) ≡ false)
      → IsRemoved (record p { phase = serves s t })
  served p q r s t i e fewer = record {
    unwatched = i.unwatched;
    unserved = λ fd h. fewer fd (sym (ap (is_served fd) e) ∙ i.unserved fd h);
  }

  turn-IsRemoved :
      (same : A → A → Bool) (p q : Polling A) → IsRemoved p → Turn same p q → IsRemoved q
  unfolding removed
  turn-IsRemoved same _ _ i (adds p fd flag ch m free e) =
      added same p fd flag ch m i free (add_aio same fd flag ch p.mgr m e)
  turn-IsRemoved same _ _ i (dels p fd flag m e) =
      let h : DelLess fd flag p.mgr (some m) =
        subst (DelLess fd flag p.mgr) e (del_less fd flag p.mgr) in
      mgr_changed p m i h.0
  turn-IsRemoved same _ _ i (blocks p fd m e) =
      blocked p fd m i (subst (DelLess fd cb_rdwr p.mgr) e (block_less fd p.mgr))
  turn-IsRemoved same _ _ i (returns p fd h) = mgr_changed p (removed fd p.mgr) i (λ x h. h)
  turn-IsRemoved same _ _ i (begins p e) = loop_top-IsRemoved p i
  turn-IsRemoved same _ _ i (waits p r w e hr hw) = loop_polls-IsRemoved r w p i hr hw
  turn-IsRemoved same _ _ i (reads p fd r w e) =
      served p (fd ∷ r) w r w i e (λ x h. ground (arith, h))
  turn-IsRemoved same _ _ i (writes p fd w e) =
      served p [] (fd ∷ w) [] w i e (λ x h. ground (arith, h))
  turn-IsRemoved same _ _ i (ends p e) = record { unwatched = i.unwatched; unserved = λ fd h. refl }

  turns-IsRemoved :
      (same : A → A → Bool) (p q : Polling A) → IsRemoved p → Turns same p q → IsRemoved q
  turns-IsRemoved same _ _ i (done p) = i
  turns-IsRemoved same _ _ i (next p q r t ts) =
      turns-IsRemoved same q r (turn-IsRemoved same p q i t) ts

-- Once the wait of `block_remove_fd` has ended for a descriptor, and until a callback is added for
-- it again, it is not watched and the poll thread has it in neither of its lists, in whatever order
-- the poll thread and any threads that add, delete and remove callbacks take their turns, and
-- whatever `select` finds ready among what is watched. The wait ends with a broadcast only, and
-- nobody adds a callback for a descriptor while its removal waits.
pub never_called :
    (A : Type 0) (same : A → A → Bool) (pipe fd : ℕ) (p : Polling A)
    → Turns same (polling_new A pipe) p
    → p.gone fd ≡ true
    → (is_served fd p.phase ≡ false) × (watched fd p.mgr.aio ≡ false)
never_called A same pipe fd p turns h =
    let i : IsRemoved p =
      turns-IsRemoved same (polling_new A pipe) p
        (record { unwatched = λ x h. absurd (cc h); unserved = λ x h. refl }) turns in
    (i.unserved fd h, i.unwatched fd (ground (arith, h)))
