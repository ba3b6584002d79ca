-- ===== src/Paxos/Acceptor.antt =====
-- `acceptor` of paxos.h, its handlers in paxos.cc, and the records that log.cc appends.
use simple_distributed_files.Prelude.{
  ℕ, ◌+◌, ◌%◌, ◌^◌, Bool, true, false, List, [], ◌∷◌, ◌++◌, Option, none, some, Bytes, codes, ltb,
  leb, ◌==◌, if◌then◌else◌, str_eq,
}
use simple_distributed_files.Text.Decimal.{dec}
use simple_distributed_files.Paxos.Proposal.{PropT, gt, ge}

-- `unsigned` has 32 bits.
abbrev pub u32_mod : ℕ
u32_mod = 2 ^ 32

pub record Preparearg : Type 0 where
  pub instance_no : ℕ
  pub n : PropT

pub record Prepareres : Type 0 where
  pub oldinstance : Bool
  pub accept : Bool
  pub n_a : PropT
  pub v_a : Bytes

pub record Acceptarg : Type 0 where
  pub instance_no : ℕ
  pub n : PropT
  pub v : Bytes

pub record Decidearg : Type 0 where
  pub instance_no : ℕ
  pub v : Bytes

-- `values` is a `std::map` that is only indexed, so an absent value reads as the empty string.
-- `file` is the text of the log file. `cfg` tells whether there is a config to call back, and
-- `upcalls` holds the calls of `paxos_commit` so far, the latest first.
pub record Acceptor : Type 0 where
  pub cfg : Bool
  pub me : Bytes
  pub n_h : PropT
  pub n_a : PropT
  pub v_a : Bytes
  pub instance_h : ℕ
  pub values : ℕ → Bytes
  pub file : Bytes
  pub upcalls : List (ℕ × Bytes)

abbrev pub update : (ℕ → Bytes) → ℕ → Bytes → ℕ → Bytes
update f k v j = if j == k then v else f j

-- The lines that `loginstance`, `logprop` and `logaccept` write.
unfoldable pub instance_text : ℕ → Bytes → Bytes
instance_text i v = codes "done" ++ (32 ∷ (dec i ++ (32 ∷ (v ++ (10 ∷ [])))))

unfoldable pub prop_text : PropT → Bytes
prop_text p = codes "propseen" ++ (32 ∷ (dec p.n ++ (32 ∷ (p.m ++ (10 ∷ [])))))

unfoldable pub accept_text : PropT → Bytes → Bytes
accept_text p v = codes "accepted" ++ (32 ∷ (dec p.n ++ (32 ∷ (p.m ++ (32 ∷ (v ++ (10 ∷ [])))))))

unfoldable pub loginstance : ℕ → Bytes → Acceptor → Acceptor
loginstance i v a = record a { file = a.file ++ instance_text i v }

unfoldable pub logprop : PropT → Acceptor → Acceptor
logprop p a = record a { file = a.file ++ prop_text p }

unfoldable pub logaccept : PropT → Bytes → Acceptor → Acceptor
logaccept p v a = record a { file = a.file ++ accept_text p v }

-- `r` comes in as the caller left it: a field that a branch does not set keeps what it held.
unfoldable pub preparereq : Acceptor → Preparearg → Prepareres → Acceptor × Prepareres
unfolding logprop
preparereq a arg r =
    if leb arg.instance_no a.instance_h
    then (a, record r { accept = false; oldinstance = true; v_a = a.values arg.instance_no })
    else if gt arg.n a.n_h
    then (
      logprop arg.n (record a { n_h = arg.n }),
      record { accept = true; n_a = a.n_a; oldinstance = false; v_a = a.v_a },
    )
    else (a, record r { accept = false; oldinstance = false })

unfoldable pub acceptreq : Acceptor → Acceptarg → Acceptor × Bool
unfolding logaccept
acceptreq a arg =
    if ge arg.n a.n_h
    then (logaccept arg.n arg.v (record a { n_a = arg.n; v_a = arg.v }), true)
    else (a, false)

-- A log record goes out before the instance is over; the upcall comes last.
unfoldable pub commit_wo : ℕ → Bytes → Acceptor → Acceptor
unfolding loginstance
commit_wo i v a =
    if ltb a.instance_h i
    then record (loginstance i v a) {
      values = update a.values i v;
      instance_h = i;
      n_h = record { n = 0; m = a.me };
      n_a = record { n = 0; m = a.me };
      v_a = [];
      upcalls = if a.cfg then (i, v) ∷ a.upcalls else a.upcalls;
    }
    else a

unfoldable pub commit : ℕ → Bytes → Acceptor → Acceptor
unfolding commit_wo
commit i v a = commit_wo i v a

-- `none` is a failed VERIFY, which ends the process.
unfoldable pub decidereq : Acceptor → Decidearg → Option Acceptor
unfolding commit_wo
decidereq a arg =
    if arg.instance_no == (a.instance_h + 1) % u32_mod
    then (if str_eq a.v_a arg.v then some (commit_wo arg.instance_no a.v_a a) else none)
    else if leb arg.instance_no a.instance_h
    then some a
    else none
