-- ===== src/Rpc/Window.antt =====
-- The reply window of `rpcs` in rpc/rpc.h and rpc/rpc.cc: `checkduplicate_and_update`,
-- `add_reply`, and `dispatch` around them. Buffers are the bytes of the replies.
use simple_distributed_files.Prelude.{
  ℕ, Bool, true, false, not, ◌&&◌, List, [], ◌∷◌, ◌++◌, Option, none, some, Bytes, ltb, ◌==◌,
  if◌then◌else◌, Dict, lookup, insert,
}
use simple_distributed_files.Rpc.Marshall.{ReqHeader}

-- `reply_t`; `buf` is only read where `cb_present` is set.
pub record ReplyT : Type 0 where
  pub xid : ℕ
  pub cb_present : Bool
  pub buf : Bytes

abbrev pub pending : ℕ → ReplyT
pending xid = record { xid = xid; cb_present = false; buf = [] }

-- `rpcstate_t`, with the reply that DONE hands out.
pub data RpcState : Type 0 where
  new inprogress forgotten : RpcState
  done : Bytes → RpcState

-- The loop that looks for the least xid, from `min` on. It assigns the request's own xid.
unfoldable pub find_min : ℕ → ℕ → List ReplyT → ℕ
find_min xid min [] = min
find_min xid min (r ∷ rs) = find_min xid (if ltb r.xid min then xid else min) rs

-- Replies that the client has confirmed are dropped.
unfoldable pub clean : ℕ → List ReplyT → List ReplyT
clean xid_rep [] = []
clean xid_rep (r ∷ rs) = let rest = clean xid_rep rs in if ltb r.xid xid_rep then rest else r ∷ rest

-- The search for the request: a reply that is there wins over a mark that it is being served.
unfoldable pub scan : ℕ → RpcState → List ReplyT → RpcState
scan xid state [] = state
scan xid state (r ∷ rs) =
    let rest = scan xid (if r.xid == xid then inprogress else state) rs in
    if r.xid == xid && r.cb_present then done r.buf else rest

abbrev pub remember : ℕ → List ReplyT → RpcState → List ReplyT × RpcState
remember xid rs new = (rs ++ pending xid ∷ [], new)
remember xid rs inprogress = (rs, inprogress)
remember xid rs forgotten = (rs, forgotten)
remember xid rs (done b) = (rs, done b)

unfoldable pub check_replies : ℕ → ℕ → List ReplyT → List ReplyT × RpcState
check_replies xid xid_rep [] = (pending 0 ∷ [], new)
check_replies xid xid_rep (r ∷ rs) =
    if ltb xid (find_min xid r.xid (r ∷ rs))
    then (r ∷ rs, forgotten)
    else (let kept = clean xid_rep (r ∷ rs) in remember xid kept (scan xid new kept))

abbrev pub Windows : Type 0
Windows = Dict (List ReplyT)

-- `none` is an iterator at the end that is followed: the client has no window.
unfoldable pub checkduplicate_and_update : ℕ → ℕ → ℕ → Windows → Option (Windows × RpcState)
checkduplicate_and_update clt_nonce xid xid_rep w = elim (lookup clt_nonce w) [
  | none ↦ none
  | some rs ↦
      let (rs', state) = check_replies xid xid_rep rs in some (insert clt_nonce rs' w, state)
]

unfoldable pub add_to_replies : ℕ → Bytes → List ReplyT → List ReplyT
add_to_replies xid b rs = rs ++ record { xid = xid; cb_present = true; buf = b } ∷ []

unfoldable pub add_reply : ℕ → ℕ → Bytes → Windows → Option Windows
add_reply clt_nonce xid b w = elim (lookup clt_nonce w) [
  | none ↦ none
  | some rs ↦ some (insert clt_nonce (add_to_replies xid b rs) w)
]

unfoldable pub free_reply_window : Windows → Windows
free_reply_window w = []

-- What `dispatch` does with a request once its header is read: it answers at once with an error
-- code, aborts at a procedure that is not registered, calls the handler, sends a kept reply, or
-- leaves the request to the thread that serves it.
pub data Action : Type 0 where
  oldsrv_failure : Action
  unknown_proc : Action
  execute : Action
  resend : Bytes → Action
  ignore : Action
  atmostonce_failure : Action
  fault : Action

abbrev pub action_of : RpcState → Action
action_of new = execute
action_of inprogress = ignore
action_of forgotten = atmostonce_failure
action_of (done b) = resend b

-- A client that is not known yet gets an empty window.
unfoldable pub know_client : ℕ → Windows → Windows
know_client clt_nonce w = elim (lookup clt_nonce w) [ none ↦ insert clt_nonce [] w | some rs ↦ w ]

-- `dispatch` up to its `switch`. A client with nonce 0 wants no at-most-once semantics.
unfoldable pub dispatch : ℕ → (ℕ → Bool) → ReqHeader → Windows → Windows × Action
dispatch nonce registered h w =
    if not (h.srv_nonce == 0) && not (h.srv_nonce == nonce)
    then (w, oldsrv_failure)
    else if not (registered h.proc)
    then (w, unknown_proc)
    else if h.clt_nonce == 0
    then (w, execute)
    else elim (checkduplicate_and_update h.clt_nonce h.xid h.xid_rep (know_client h.clt_nonce w)) [
      | none ↦ (know_client h.clt_nonce w, fault)
      | some (w', state) ↦ (w', action_of state)
    ]

-- The end of the NEW case: the handler's reply is kept for a client with a nonce.
unfoldable pub finish : ReqHeader → Bytes → Windows → Option Windows
finish h b w = if h.clt_nonce == 0 then some w else add_reply h.clt_nonce h.xid b w
