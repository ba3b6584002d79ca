-- ===== src/Rpc/Client.antt =====
-- `rpcc` of rpc/rpc.h and rpc/rpc.cc: the numbers of requests, the window of replies received, and
-- the calls that wait. Mutexes make each function here one step; connections are left out.
use simple_distributed_files.Prelude.{
  ℕ, ◌+◌, ◌-◌, ◌%◌, ◌^◌, Bool, true, false, not, ◌&&◌, ◌||◌, List, [], ◌∷◌, ◌++◌, Option, none,
  some, Bytes, ltb, leb, ◌==◌, if◌then◌else◌, Dict, lookup, insert, erase,
}
use simple_distributed_files.Rpc.Marshall.{ReqHeader, ReplyHeader}

-- The constants of `rpc_const`; an `int` is its bit pattern.
abbrev pub bind_proc : ℕ
bind_proc = 1

abbrev pub timeout_failure : ℕ
timeout_failure = 2 ^ 32 - 1

abbrev pub bind_failure : ℕ
bind_failure = 2 ^ 32 - 6

abbrev pub cancel_failure : ℕ
cancel_failure = 2 ^ 32 - 7

-- `caller`; `rep` is the reply that was taken in.
pub record Caller : Type 0 where
  pub xid : ℕ
  pub done : Bool
  pub intret : ℕ
  pub rep : Bytes

-- `xid_rep_window_` is never empty: `front` is its first number.
pub record Window : Type 0 where
  pub front : ℕ
  pub rest : List ℕ

pub record Client : Type 0 where
  pub clt_nonce : ℕ
  pub srv_nonce : ℕ
  pub bind_done : Bool
  pub xid : ℕ
  pub destroy_wait : Bool
  pub calls : Dict Caller
  pub window : Window

abbrev pub window_new : Window
window_new = record { front = 0; rest = [] }

abbrev pub client_new : ℕ → Client
client_new clt_nonce = record {
  clt_nonce = clt_nonce;
  srv_nonce = 0;
  bind_done = false;
  xid = 1;
  destroy_wait = false;
  calls = [];
  window = window_new;
}

-- The loop that inserts before the first greater number, or at the end.
unfoldable pub insert_xid : ℕ → List ℕ → List ℕ
insert_xid xid [] = xid ∷ []
insert_xid xid (x ∷ xs) =
    let rest = insert_xid xid xs in if ltb xid x then xid ∷ x ∷ xs else x ∷ rest

-- The inner loop of the compression, at the number `it`; `behind` stands between it and the front.
unfoldable pub pop_front : ℕ → ℕ → List ℕ → Window
pop_front it front [] =
    if (front + 1) % 2 ^ 32 == it
    then record { front = it; rest = [] }
    else record { front = front; rest = it ∷ [] }
pop_front it front (x ∷ behind) =
    let popped = pop_front it x behind in
    if (front + 1) % 2 ^ 32 == it
    then popped
    else record { front = front; rest = x ∷ (behind ++ it ∷ []) }

unfoldable pub compress : Window → List ℕ → Window
compress w [] = w
compress w (it ∷ ahead) = compress (pop_front it w.front w.rest) ahead

unfoldable pub update_xid_rep : ℕ → Window → Window
update_xid_rep xid w =
    if leb xid w.front
    then w
    else compress (record { front = w.front; rest = [] }) (insert_xid xid w.rest)

pub data Start : Type 0 where
  refused : ℕ → Start
  started : ReqHeader → Start

-- The first part of `call1`: the call is entered, with the header that it sends.
unfoldable pub start_call : ℕ → Client → Client × Start
start_call proc c =
    if (not (proc == bind_proc) && not c.bind_done) || (proc == bind_proc && c.bind_done)
    then (c, refused bind_failure)
    else if c.destroy_wait
    then (c, refused cancel_failure)
    else (
      record c {
        xid = (c.xid + 1) % 2 ^ 32;
        calls = insert c.xid (record { xid = c.xid; done = false; intret = 0; rep = [] }) c.calls;
      },
      started (record {
        xid = c.xid;
        proc = proc;
        clt_nonce = c.clt_nonce;
        srv_nonce = c.srv_nonce;
        xid_rep = c.window.front;
      }),
    )

-- `ca.done ? ca.intret : timeout_failure`
abbrev pub result_of : Option Caller → ℕ
result_of none = timeout_failure
result_of (some ca) = if ca.done then ca.intret else timeout_failure

-- The last part of `call1`, with the call's result.
unfoldable pub end_call : ℕ → Client → Client × ℕ
end_call xid c = (
  record c { calls = erase xid c.calls; window = update_xid_rep xid c.window },
  result_of (lookup xid c.calls),
)

abbrev pub answered : ReplyHeader → Bytes → Caller → Caller
answered h rep ca = if ca.done then ca else record ca { done = true; intret = h.ret; rep = rep }

-- `got_pdu`, once the header is read.
unfoldable pub got_pdu : ReplyHeader → Bytes → Client → Client
got_pdu h rep c = elim (lookup h.xid c.calls) [
  | none ↦ record c { window = update_xid_rep h.xid c.window }
  | some ca ↦ record c {
    window = update_xid_rep h.xid c.window;
    calls = insert h.xid (answered h rep ca) c.calls;
  }
]

-- `bind`, with the result of its call and the nonce that came.
unfoldable pub bind : ℕ → ℕ → Client → Client
bind ret r c = if ret == 0 then record c { bind_done = true; srv_nonce = r } else c

unfoldable pub cancel_all : Dict Caller → Dict Caller
cancel_all [] = []
cancel_all (e ∷ d) = (e.0, record e.1 { done = true; intret = cancel_failure }) ∷ cancel_all d

-- `cancel` up to its wait, which lasts until the calls have ended.
unfoldable pub cancel : Client → Client
cancel c = record c {
  calls = cancel_all c.calls;
  destroy_wait = elim c.calls [ [] ↦ c.destroy_wait | e ∷ d ↦ true ];
}
