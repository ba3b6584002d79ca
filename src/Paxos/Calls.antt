-- ===== src/Paxos/Calls.antt =====
-- The calls that an acceptor serves, as a history: the RPC handlers of paxos.cc and the local
-- `commit`. A history ends early where a VERIFY fails.
use simple_distributed_files.Prelude.{ℕ, List, [], ◌∷◌, Option, none, some, Bytes}
use simple_distributed_files.Paxos.Acceptor.{
  Acceptor, Preparearg, Prepareres, Acceptarg, Decidearg, preparereq, acceptreq, decidereq, commit,
}

pub data Call : Type 0 where
  prepare : Preparearg → Prepareres → Call
  accept : Acceptarg → Call
  decide : Decidearg → Call
  commits : ℕ → Bytes → Call

unfoldable pub apply_call : Call → Acceptor → Option Acceptor
apply_call (prepare arg r) a = some (preparereq a arg r).0
apply_call (accept arg) a = some (acceptreq a arg).0
apply_call (decide arg) a = decidereq a arg
apply_call (commits i v) a = some (commit i v a)

unfoldable pub run_calls : List Call → Acceptor → Option Acceptor
run_calls [] a = some a
run_calls (c ∷ cs) a = elim (apply_call c a) [ none ↦ none | some b ↦ run_calls cs b ]
