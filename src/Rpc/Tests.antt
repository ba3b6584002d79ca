-- ===== src/Rpc/Tests.antt =====
-- Runs of the RPC library's model, and the theorems about it at concrete inputs.
use simple_distributed_files.Prelude.{
  ◌<◌, ℕ, length, ◌≤◌, ◌↔◌, inl, inr, false, replicate, ◌≡◌, ◌≢◌, ◌⊎◌, refl, true, List, [], ◌∷◌,
  ◌++◌, none, arith,
}
use simple_distributed_files.Rpc.Unmarshall.{get_string}
use simple_distributed_files.Rpc.RoundTrip.{uint_bytes}
use simple_distributed_files.Rpc.Faults.{long_string_faults}
use simple_distributed_files.Rpc.Link.{
  Happens, calls, arrives, answers, link_new, happen, happen_all, times,
}
use simple_distributed_files.Rpc.Once.{executed_once}
use simple_distributed_files.Rpc.Client.{
  start_call, got_pdu, end_call, bind, update_xid_rep, insert_xid, compress, pop_front,
}
use simple_distributed_files.Rpc.Received.{
  Event, begins, replied, ended, binds, event, client_after, settled, HasUpTo, xid_rep_exact,
}
use simple_distributed_files.Rpc.Timeouts.{Timespec, Round, call_loop, loop_new}
use simple_distributed_files.Rpc.Deadline.{call_loop_ends}
use simple_distributed_files.Rpc.ThrPool.{
  Turn, adds, works, Closing, poisons, last_works, pooled_new, turn_all, close_all, close, turn,
  do_worker, poison, add_job, take_job,
}
use simple_distributed_files.Rpc.ThrPool.Drained.{CanGoOn, close_all-drained}
use simple_distributed_files.Rpc.Fifo.{
  enq, deq, Look, puts, takes, fifo_new, look_all, look_all_lem,
}

long_string_faults_example :
    get_string [] (record { ind = 24; rest = uint_bytes 4294967295 ++ 65 ∷ []; ok = true }) ≡ none
long_string_faults_example =
    long_string_faults [] (65 ∷ []) 24 4294967295 (omega arith) (omega arith) (omega arith)

-- The request 2 is sent, and a copy of it comes after its answer.
abbrev delivery : List Happens
delivery = calls ∷ arrives 2 1 ∷ answers 2 (107 ∷ []) ∷ arrives 2 1 ∷ []

executed_once_example : times 2 (happen_all delivery link_new).executed ≤ 1
unfolding happen_all happen
executed_once_example =
    executed_once delivery 2 (tt, (tt, (tt, (tt, tt)))) (omega arith)
      (λ h. elim h [ inl e ↦ absurd (omega (arith, e)) | inr n ↦ n ])

-- The reply to request 2 comes first; request 1 gets none in time; then the reply to request 3.
abbrev events : List Event
events =
    replied (record { xid = 3; ret = 0 }) []
    ∷ ended 1
    ∷ replied (record { xid = 2; ret = 0 }) []
    ∷ begins 7
    ∷ begins 7
    ∷ begins 7
    ∷ binds 0 99
    ∷ []

xid_rep_exact_example : (3 ≤ (client_after 5 events).window.front) ↔ HasUpTo 3 (settled events)
xid_rep_exact_example = xid_rep_exact 5 events 3 (omega arith, (omega arith, (omega arith, tt)))

reported : (client_after 5 events).window.front ≡ 3
unfolding client_after event start_call got_pdu end_call bind update_xid_rep insert_xid compress
    pop_front
reported = refl

abbrev noon : Timespec
noon = record { tv_sec = 43200; tv_nsec = 999500000 }

-- No reply comes.
abbrev idle : Round
idle = record { ch = true; reachable = true; now = noon; done = false; isdead = false }

call_loop_ends_example : call_loop true (replicate 23 idle) (loop_new noon 120000) ≢ none
call_loop_ends_example =
    call_loop_ends true (replicate 23 idle) noon 120000 (omega arith) (omega arith) (omega arith)
      (omega arith)

-- The second put finds the queue full.
abbrev jobs : List (Look ℕ)
jobs = puts 4 false ∷ puts 5 false ∷ takes ∷ puts 6 true ∷ []

look_all_lem_example :
    let t = look_all jobs (record { fifo = fifo_new 1; entered = []; left = [] }) in
    (t.entered ≡ t.left ++ t.fifo.q) × ((◌≡◌ {A = ℕ} 1 0) ⊎ (length t.fifo.q ≤ 1))
look_all_lem_example = look_all_lem 1 jobs

-- Two threads, three jobs; the second job is taken before the destructor runs.
abbrev pool_turns : List (Turn ℕ)
pool_turns = works ∷ adds 1 ∷ adds 2 ∷ works ∷ works ∷ adds 3 ∷ []

abbrev pool_closing : List Closing
pool_closing = poisons ∷ last_works ∷ last_works ∷ poisons ∷ last_works ∷ []

close_all-drained_example :
    let s = close_all pool_closing (turn_all pool_turns (pooled_new 2 false)) in
    ((s.ended ≡ 2) × ((s.taken ≡ s.accepted) × (length s.pool.jobq.q ≡ 0)))
    ⊎ ((s.ended < 2) × CanGoOn s)
close_all-drained_example = close_all-drained 2 false pool_turns pool_closing (omega arith)

-- That pool ends, with all jobs taken.
pool_ends :
    let s = close_all pool_closing (turn_all pool_turns (pooled_new 2 false)) in
    (s.ended ≡ 2) × (s.taken ≡ 1 ∷ 2 ∷ 3 ∷ [])
unfolding close_all turn_all close turn do_worker poison add_job take_job enq deq
pool_ends = (refl, refl)
