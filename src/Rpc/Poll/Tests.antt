-- ===== src/Rpc/Poll/Tests.antt =====
-- The poll manager of rpc/pollmgr.cc at concrete descriptors.
use simple_distributed_files.Prelude.{
  ℕ, ◌≡◌, refl, Bool, true, false, not, ◌&&◌, ◌||◌, List, [], ◌∷◌, some, arith, ◌==◌, if◌then◌else◌,
}
use simple_distributed_files.Rpc.Poll.{
  cb_rdonly, cb_rdwr, FdSet, fd_put, fd_zero, fd_clr, PollMgr, SelectAio, select_new, watch_fd,
  find_high, clear_fd, lower_high, unwatch_fd, wait_ready, pollmgr_new, add_callback,
  block_remove_fd,
}
use simple_distributed_files.Rpc.Poll.Select.{
  elem, Change, watches, unwatches, change, change_all, wait_ready_lem,
}
use simple_distributed_files.Rpc.Poll.Turns.{
  Polling, polling_new, Turns, done, next, adds, blocks, begins, loop_top, polls,
}
use simple_distributed_files.Rpc.Poll.Removal.{is_served, watched, never_called}

-- Descriptor 9 comes and goes again.
abbrev changes : List Change
changes = watches 7 cb_rdonly ∷ watches 9 cb_rdwr ∷ unwatches 9 cb_rdwr ∷ []

abbrev seven : FdSet
seven = fd_put 7 fd_zero

wait_ready_lem_example :
    let a : SelectAio = change_all changes (select_new 4) in
    let own : Bool = 7 == a.pipe && seven 7 in
    (elem 7 (wait_ready seven fd_zero a).0 ≡ (seven 7 && not own))
    × (elem 7 (wait_ready seven fd_zero a).1 ≡ (fd_zero 7 && not own))
unfolding change_all change watch_fd unwatch_fd clear_fd lower_high find_high
wait_ready_lem_example =
    wait_ready_lem changes 4 seven fd_zero 7 (λ x h. ground (arith, h)) (λ x h. absurd (cc h))

abbrev added : PollMgr ℕ
added = record (pollmgr_new 4) {
  aio = record { rfds = fd_put 7 (fd_put 4 fd_zero); wfds = fd_zero; highfds = 7; pipe = 4 };
  callbacks = λ i. if i == 7 then some 70 else (pollmgr_new {A = ℕ} 4).callbacks i;
}

abbrev blocked : PollMgr ℕ
blocked = record added {
  aio = record { rfds = fd_clr 7 added.aio.rfds; wfds = fd_clr 7 fd_zero; highfds = 4; pipe = 4 };
  pending_change = true;
}

abbrev with_seven : Polling ℕ
with_seven = record (polling_new ℕ 4) { mgr = added; gone = λ x. false && not (x == 7) }

abbrev removing_seven : Polling ℕ
removing_seven = record with_seven { mgr = blocked; removing = fd_put 7 fd_zero }

abbrev without_seven : Polling ℕ
without_seven = record removing_seven {
  mgr = record blocked { pending_change = false };
  phase = polls;
  removing = fd_zero;
  gone = λ fd. fd_put 7 fd_zero fd || false && not (fd == 7);
}

turns : Turns ◌==◌ (polling_new ℕ 4) without_seven
unfolding add_callback watch_fd block_remove_fd unwatch_fd clear_fd lower_high find_high loop_top
turns =
    next (polling_new ℕ 4) with_seven without_seven
      (adds (polling_new ℕ 4) 7 cb_rdonly 70 added refl refl)
      (next with_seven removing_seven without_seven (blocks with_seven 7 blocked refl) (
        next removing_seven without_seven without_seven (begins removing_seven refl)
          (done without_seven)))

never_called_example :
    (is_served 7 without_seven.phase ≡ false) × (watched 7 without_seven.mgr.aio ≡ false)
never_called_example = never_called ℕ ◌==◌ 4 7 without_seven turns refl
