-- ===== src/Config.antt =====
-- `config` of config.h and config.cc: the view of the replicated service, on which Paxos agrees.
-- Sockets, the clock and the condition variables are left out; `proposer::run` is called with the
-- arguments that `add` and `remove_wo` return here.
pub mod Views
mod Tests
use simple_distributed_files.Prelude.{
  ℕ, zero, suc, ◌+◌, ◌%◌, Bool, true, false, not, ◌&&◌, ◌||◌, List, [], ◌∷◌, ◌++◌, Option, none,
  some, Bytes, ltb, ◌==◌, if◌then◌else◌, str_eq, str_lt, length,
}
use simple_distributed_files.Text.Stream.{Stream, open_text, read_word}
use simple_distributed_files.Paxos.Acceptor.{Acceptor, u32_mod}
use simple_distributed_files.Paxos.Proposer.{isamember}

-- `deleted` holds the calls of `mgr.delete_handle` so far, and `changes` those of `commit_change`,
-- if there is a listener.
pub record Config : Type 0 where
  pub myvid : ℕ
  pub me : Bytes
  pub listened : Bool
  pub mems : List Bytes
  pub deleted : List Bytes
  pub changes : List ℕ

abbrev pub config_new : Bytes → Bool → Config
config_new me listened = record {
  myvid = 0;
  me = me;
  listened = listened;
  mems = [];
  deleted = [];
  changes = [];
}

-- `while (ist >> m)`. Each round takes at least one character.
unfoldable pub read_words : ℕ → Bytes → Stream → List Bytes
read_words zero m s = []
read_words (suc f) m s =
    let (word, s1) = read_word m s in
    elim s1.good [ false ↦ [] | true ↦ word ∷ read_words f word s1 ]

unfoldable pub members : Bytes → List Bytes
members value = read_words (suc (length value)) [] (open_text value)

unfoldable pub value : List Bytes → Bytes
value [] = []
value (m ∷ ms) = m ++ (32 ∷ value ms)

unfoldable pub get_view : Acceptor → ℕ → List Bytes
get_view acc i = members (acc.values i)

unfoldable pub reconstruct : Acceptor → Config → Config
reconstruct acc c =
    if ltb 0 acc.instance_h
    then record c { myvid = acc.instance_h; mems = get_view acc acc.instance_h }
    else c

-- The members whose handles `paxos_commit` deletes.
unfoldable pub departed : Bytes → List Bytes → List Bytes → List Bytes
departed me newmem [] = []
departed me newmem (m ∷ ms) =
    let rest = departed me newmem ms in
    if not (isamember m newmem) && not (str_eq me m) then m ∷ rest else rest

unfoldable pub paxos_commit : ℕ → Bytes → Config → Config
paxos_commit i v c = record c {
  mems = members v;
  myvid = i;
  deleted = c.deleted ++ departed c.me (members v) c.mems;
  changes = if c.listened then c.changes ++ i ∷ [] else c.changes;
}

unfoldable pub ismember : Bytes → ℕ → Acceptor → Bool
ismember m vid acc = isamember m (get_view acc vid)

-- The arguments of `run`: the next view's number, the nodes of this view, and the new value.
abbrev pub Proposal : Type 0
Proposal = ℕ × List Bytes × Bytes

unfoldable pub add : Bytes → ℕ → Config → Option Proposal
add new_m vid c =
    if vid == c.myvid
    then some ((c.myvid + 1) % u32_mod, c.mems, value (c.mems ++ new_m ∷ []))
    else none

unfoldable pub without : Bytes → List Bytes → List Bytes
without m [] = []
without m (x ∷ xs) = let rest = without m xs in if str_eq x m then rest else x ∷ rest

unfoldable pub remove_wo : Bytes → Config → Proposal
remove_wo m c = ((c.myvid + 1) % u32_mod, c.mems, value (without m c.mems))

pub data Status : Type 0 where
  ok err : Status

-- `none` is the VERIFY that the two views are neighbours.
unfoldable pub heartbeat : ℕ → Bool → Config → Option Status
heartbeat vid running c =
    if vid == c.myvid
    then some ok
    else if running
    then (if vid == (c.myvid + 1) % u32_mod || (vid + 1) % u32_mod == c.myvid
        then some ok
        else none)
    else some err

-- What a heartbeat call brings: OK, a failure of at-most-once or an old server, another failure
-- (a negative number), or another status.
pub data Answer : Type 0 where
  answered stale lost refused : Answer

-- `heartbeat_t`
pub data Beat : Type 0 where
  fine viewerr failure : Beat

unfoldable pub doheartbeat : Bytes → Answer → Config → Config × Beat
doheartbeat m answered c = (c, fine)
doheartbeat m stale c = (record c { deleted = c.deleted ++ m ∷ [] }, fine)
doheartbeat m lost c = (c, failure)
doheartbeat m refused c = (c, viewerr)

-- The node with the smallest name, from `m` on.
unfoldable pub least : Bytes → List Bytes → Bytes
least m [] = m
least m (x ∷ xs) = least (if str_lt x m then x else m) xs

abbrev pub is_fine : Beat → Bool
is_fine fine = true
is_fine viewerr = false
is_fine failure = false

-- The loop that pings the rest: the first node that does not answer.
unfoldable pub ping_rest : Bytes → (Bytes → Beat) → List Bytes → Option Bytes
ping_rest me beat [] = none
ping_rest me beat (x ∷ xs) =
    let rest = ping_rest me beat xs in
    if not (str_eq x me) && not (is_fine (beat x)) then some x else rest

-- A round of `heartbeater`: the node it removes. `vid'` is the view after the heartbeats.
unfoldable pub heartbeat_round : Bytes → List Bytes → (Bytes → Beat) → ℕ → ℕ → Option Bytes
heartbeat_round me cmems beat vid vid' =
    if isamember me cmems && vid == vid'
    then (if str_eq (least me cmems) me
        then ping_rest me beat cmems
        else if is_fine (beat (least me cmems))
        then none
        else some (least me cmems))
    else none
