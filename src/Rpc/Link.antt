-- ===== src/Rpc/Link.antt =====
-- One client of rpc/rpc.cc, its server and a network between them that copies, reorders and loses
-- messages: `rpcc::call1` and `got_pdu` on one side, `rpcs::dispatch` on the other.
use simple_distributed_files.Prelude.{
  ℕ, ◌+◌, ◌%◌, ◌^◌, Bool, true, false, List, [], ◌∷◌, Bytes, ◌&&◌, ◌||◌, ◌==◌, if◌then◌else◌,
}
use simple_distributed_files.Rpc.Client.{Window, update_xid_rep}
use simple_distributed_files.Rpc.Window.{
  ReplyT, pending, RpcState, new, inprogress, forgotten, done, check_replies, add_to_replies,
}
use simple_distributed_files.Rpc.Compress.{IsXid}

-- `sent` holds the number and the `xid_rep` of each header that the client made, `got` the numbers
-- whose replies came, or whose calls timed out, and `executed` the calls of handlers, the latest
-- first.
pub record Link : Type 0 where
  pub xid : ℕ
  pub window : Window
  pub got : List ℕ
  pub sent : List (ℕ × ℕ)
  pub replies : List ReplyT
  pub executed : List ℕ

pub data Happens : Type 0 where
  calls : Happens
  arrives : ℕ → ℕ → Happens
  answers : ℕ → Bytes → Happens
  receives : ℕ → Happens

abbrev pub was_sent : ℕ → ℕ → List (ℕ × ℕ) → Bool
was_sent x rep [] = false
was_sent x rep (h ∷ hs) = (h.0 == x && h.1 == rep) || was_sent x rep hs

abbrev pub ran : ℕ → RpcState → List ℕ → List ℕ
ran x new xs = x ∷ xs
ran x inprogress xs = xs
ran x forgotten xs = xs
ran x (done b) xs = xs

-- The client makes a request, a copy of one arrives and its handler may be called, the server keeps
-- a reply, and the client takes one in.
unfoldable pub happen : Happens → Link → Link
happen calls l = record l { xid = (l.xid + 1) % 2 ^ 32; sent = (l.xid, l.window.front) ∷ l.sent }
happen (arrives x rep) l =
    if was_sent x rep l.sent
    then record l {
      replies = (check_replies x rep l.replies).0;
      executed = ran x (check_replies x rep l.replies).1 l.executed;
    }
    else l
happen (answers x b) l = record l { replies = add_to_replies x b l.replies }
happen (receives x) l = record l { window = update_xid_rep x l.window; got = x ∷ l.got }

unfoldable pub happen_all : List Happens → Link → Link
happen_all [] l = l
happen_all (e ∷ es) l = happen_all es (happen e l)

-- The client has bound: its first request, the bind, was answered, and the server knows it.
abbrev pub link_new : Link
link_new = record {
  xid = 2;
  window = record { front = 1; rest = [] };
  got = 1 ∷ [];
  sent = (1, 0) ∷ [];
  replies = pending 0 ∷ record { xid = 1; cb_present = true; buf = [] } ∷ [];
  executed = 1 ∷ [];
}

abbrev pub times : ℕ → List ℕ → ℕ
times x [] = 0
times x (y ∷ ys) = (if x == y then 1 else 0) + times x ys

-- The numbers of replies stay below the last of 32 bits.
abbrev pub IsBounded : Happens → Type 0
IsBounded calls = Unit
IsBounded (arrives x rep) = Unit
IsBounded (answers x b) = Unit
IsBounded (receives x) = IsXid x
