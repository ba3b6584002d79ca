-- ===== src/Rpc/Poll/Turns.antt =====
-- The poll thread of rpc/pollmgr.cc and the threads that add and remove callbacks take turns, step
-- by step.
use simple_distributed_files.Prelude.{
  ℕ, ◌≡◌, Bool, true, false, not, ◌&&◌, ◌||◌, List, [], ◌∷◌, some, ◌==◌, if◌then◌else◌,
}
use simple_distributed_files.Rpc.Poll.{
  PollFlag, FdSet, fd_zero, fd_put, wait_ready, PollMgr, pollmgr_new, add_callback, del_callback,
  block_remove_fd, removed,
}

-- Where the poll thread is in its loop, with the descriptors it has still to serve.
pub data Phase : Type 0 where
  top polls : Phase
  serves : List ℕ → List ℕ → Phase

-- The poll manager among its threads: `removing` are the descriptors that `block_remove_fd` waits
-- for, `gone` those for which its wait has ended, until a callback is added again.
pub record Polling (A : Type 0) : Type 0 where
  pub mgr : PollMgr A
  pub phase : Phase
  pub removing : FdSet
  pub gone : FdSet

abbrev pub polling_new : (A : Type 0) → ℕ → Polling A
polling_new A pipe = record {
  mgr = pollmgr_new pipe;
  phase = top;
  removing = fd_zero;
  gone = fd_zero;
}

-- The first lines of the loop.
unfoldable pub loop_top : {A : Type 0} → Polling A → Polling A
loop_top p =
    if p.mgr.pending_change
    then record p {
      mgr = record p.mgr { pending_change = false };
      phase = polls;
      removing = fd_zero;
      gone = λ fd. p.removing fd || p.gone fd;
    }
    else record p { phase = polls }

-- The lists of a round that finds nothing are not gone through.
unfoldable pub loop_polls : {A : Type 0} → FdSet → FdSet → Polling A → Polling A
loop_polls trfds twfds p =
    let (readable, writable) = wait_ready trfds twfds p.mgr.aio in
    record p { phase = serves readable writable }

module _ {A : Type 0} (same : A → A → Bool) where
  pub data Turn : Polling A → Polling A → Type 0 where
    adds :
        (p : Polling A) (fd : ℕ) (flag : PollFlag) (ch : A) (m : PollMgr A)
        → p.removing fd ≡ false
        → add_callback same fd flag ch p.mgr ≡ some m
        → Turn p (record p { mgr = m; gone = λ x. p.gone x && not (x == fd) })
    dels :
        (p : Polling A) (fd : ℕ) (flag : PollFlag) (m : PollMgr A)
        → del_callback fd flag p.mgr ≡ some m
        → Turn p (record p { mgr = m })
    blocks :
        (p : Polling A) (fd : ℕ) (m : PollMgr A)
        → block_remove_fd fd p.mgr ≡ some m
        → Turn p (record p { mgr = m; removing = fd_put fd p.removing })
    returns :
        (p : Polling A) (fd : ℕ) → p.gone fd ≡ true → Turn p (record p { mgr = removed fd p.mgr })
    begins : (p : Polling A) → p.phase ≡ top → Turn p (loop_top p)
    waits :
        (p : Polling A) (trfds twfds : FdSet)
        → p.phase ≡ polls
        → ((x : ℕ) → trfds x ≡ true → p.mgr.aio.rfds x ≡ true)
        → ((x : ℕ) → twfds x ≡ true → p.mgr.aio.wfds x ≡ true)
        → Turn p (loop_polls trfds twfds p)
    reads :
        (p : Polling A) (fd : ℕ) (readable writable : List ℕ)
        → p.phase ≡ serves (fd ∷ readable) writable
        → Turn p (record p { phase = serves readable writable })
    writes :
        (p : Polling A) (fd : ℕ) (writable : List ℕ)
        → p.phase ≡ serves [] (fd ∷ writable)
        → Turn p (record p { phase = serves [] writable })
    ends : (p : Polling A) → p.phase ≡ serves [] [] → Turn p (record p { phase = top })

  pub data Turns : Polling A → Polling A → Type 0 where
    done : (p : Polling A) → Turns p p
    next : (p q r : Polling A) → Turn p q → Turns q r → Turns p r
