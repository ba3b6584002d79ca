-- ===== src/Rsm.antt =====
-- `rsm` of rsm.h and rsm.cc: the layer of a replicated service that follows the views of `config`
-- and chooses a primary. Calls of other nodes are their results, as arguments; `client_invoke`,
-- `invoke` and `transferdonereq` are stubs in the source, which answer OK.
pub mod Messages
pub mod Carried
pub mod Primary
pub mod Transfer
mod Tests
use simple_distributed_files.Prelude.{
  ℕ, ◌+◌, ◌-◌, Bool, true, false, not, ◌&&◌, ◌||◌, List, [], ◌∷◌, ◌++◌, Option, none, some, Bytes,
  ltb, leb, ◌==◌, if◌then◌else◌, str_eq,
}
use simple_distributed_files.Paxos.Acceptor.{Acceptor}
use simple_distributed_files.Paxos.Proposer.{isamember}
use simple_distributed_files.Paxos.Log.{dump}
use simple_distributed_files.Config.{Config, Proposal, get_view, ismember, add}

pub record Viewstamp : Type 0 where
  pub vid : ℕ
  pub seqno : ℕ

unfoldable pub differs : Viewstamp → Viewstamp → Bool
differs a b = not (a.vid == b.vid) || not (a.seqno == b.seqno)

-- `me` is the address that `cfg` has.
pub record Rsm : Type 0 where
  pub me : Bytes
  pub primary : Bytes
  pub insync : Bool
  pub inviewchange : Bool
  pub vid_commit : ℕ
  pub vid_insync : ℕ
  pub myvs : Viewstamp
  pub last_myvs : Viewstamp
  pub partitioned : Bool
  pub dopartition : Bool
  pub break1 : Bool
  pub break2 : Bool

-- `vid_insync` is not set by the constructor: `garbage`.
abbrev pub rsm_new : Bytes → Bytes → ℕ → Rsm
rsm_new first me garbage = record {
  me = me;
  primary = first;
  insync = false;
  inviewchange = true;
  vid_commit = 0;
  vid_insync = garbage;
  myvs = record { vid = 0; seqno = 1 };
  last_myvs = record { vid = 0; seqno = 0 };
  partitioned = false;
  dopartition = false;
  break1 = false;
  break2 = false;
}

-- The loop of `set_primary` over the previous view.
unfoldable pub first_member : List Bytes → List Bytes → Option Bytes
first_member [] c = none
first_member (x ∷ p) c = let rest = first_member p c in if isamember x c then some x else rest

-- The primary of the view `c` after the view `p`; `none` is a VERIFY that fails.
unfoldable pub choose : List Bytes → List Bytes → Bytes → Option Bytes
choose [] p primary = none
choose (x ∷ c) p primary =
    if isamember primary (x ∷ c) then some primary else first_member p (x ∷ c)

unfoldable pub set_primary : ℕ → Acceptor → Bytes → Option Bytes
set_primary vid acc primary = choose (get_view acc vid) (get_view acc (vid - 1)) primary

-- `breakpoint2` ends the process too.
unfoldable pub commit_change_wo : ℕ → Acceptor → Rsm → Option Rsm
commit_change_wo vid acc r =
    if leb vid r.vid_commit then some r else elim (set_primary vid acc r.primary) [
      | none ↦ none
      | some primary ↦
          if ismember r.me vid acc && r.break2
          then none
          else some (record r { vid_commit = vid; inviewchange = true; primary = primary })
    ]

-- The recovery thread, once this node is a member of the view: what it synchronises for.
abbrev pub start_sync : Rsm → Rsm
start_sync r = record r { vid_insync = r.vid_commit }

abbrev pub sync_with_backups : Bool → Rsm → Rsm
sync_with_backups begins r = record r { insync = begins }

-- After the synchronisation, which both stubs report as done.
unfoldable pub end_sync : Rsm → Rsm
end_sync r =
    if not (r.vid_insync == r.vid_commit)
    then r
    else record r { myvs = record { vid = r.vid_commit; seqno = 1 }; inviewchange = false }

pub data Status : Type 0 where
  ok err busy : Status

pub record Transferres : Type 0 where
  pub state : Bytes
  pub last : Viewstamp

-- `marshalled` is the state that `stf` gives, if there is one.
unfoldable pub transferreq : Viewstamp → ℕ → Option Bytes → Rsm → Status × Option Transferres
transferreq last vid marshalled r =
    if not r.insync || not (vid == r.vid_insync) then (busy, none) else elim marshalled [
      | none ↦ (ok, some (record { state = []; last = r.last_myvs }))
      | some s ↦ (
        ok,
        some (record { state = if differs last r.last_myvs then s else []; last = r.last_myvs }),
      )
    ]

-- `statetransfer` after its call: the state that is taken in, and whether it succeeded.
unfoldable pub statetransfer : Bool → Option Transferres → Rsm → Rsm × Option Bytes × Bool
statetransfer stf none r = (r, none, false)
statetransfer stf (some t) r = (
  record r { last_myvs = t.last },
  if stf && differs r.last_myvs t.last then some t.state else none,
  true,
)

pub data Join : Type 0 where
  joined : Bytes → Join
  refused : Join
  adds : Option Proposal → Join

-- `joinreq` up to the call of `cfg->add`, which runs without the mutex.
unfoldable pub joinreq : Bytes → Acceptor → Config → Rsm → Join
joinreq m acc c r =
    if ismember m r.vid_commit acc
    then joined (dump acc)
    else if not (str_eq c.me r.primary)
    then refused
    else adds (add m r.vid_commit c)

-- The rest of it, with the acceptor and the configuration as they are then.
unfoldable pub joinreq_end : Bytes → Acceptor → Config → Join
joinreq_end m acc c = if ismember m c.myvid acc then joined (dump acc) else refused

unfoldable pub client_members : Acceptor → Rsm → List Bytes
client_members acc r = get_view acc r.vid_commit ++ r.primary ∷ []

unfoldable pub amiprimary : Rsm → Bool
amiprimary r = str_eq r.primary r.me && not r.inviewchange

-- The nodes that `net_repair_wo` makes reachable or not.
unfoldable pub others : Bytes → List Bytes → List Bytes
others me [] = []
others me (m ∷ ms) = let rest = others me ms in if str_eq m me then rest else m ∷ rest

unfoldable pub net_repair_wo : Acceptor → Rsm → List Bytes
net_repair_wo acc r = others r.me (get_view acc r.vid_commit)

unfoldable pub test_net_repairreq : Bool → Acceptor → Rsm → Rsm × List Bytes
test_net_repairreq heal acc r =
    if heal
    then (record r { partitioned = false }, net_repair_wo acc r)
    else (record r { dopartition = true; partitioned = false }, [])

unfoldable pub partition1 : Acceptor → Rsm → Rsm × List Bytes
partition1 acc r =
    if r.dopartition
    then (record r { dopartition = false; partitioned = true }, net_repair_wo acc r)
    else (r, [])

-- The third result is the breakpoint that `cfg` gets.
unfoldable pub breakpointreq : ℕ → Rsm → Rsm × Status × Option ℕ
breakpointreq b r =
    if b == 1
    then (record r { break1 = true }, ok, none)
    else if b == 2
    then (record r { break2 = true }, ok, none)
    else if b == 3 || b == 4
    then (r, ok, some b)
    else (r, err, none)
