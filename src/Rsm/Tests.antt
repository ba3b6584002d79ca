-- ===== src/Rsm/Tests.antt =====
-- Nodes of a replicated service at concrete inputs.
use simple_distributed_files.Prelude.{
  ℕ, ◌≡◌, ◌≢◌, ◌⊎◌, ◌<◌, ◌==◌, ◌-◌, subst, Has, refl, inl, true, replicate, [], ◌∷◌, Option, none,
  some, arith, Bytes, if◌then◌else◌, str_eq,
}
use simple_distributed_files.Text.Stream.{is_space}
use simple_distributed_files.Text.Stream
use simple_distributed_files.Paxos.Acceptor.{Acceptor}
use simple_distributed_files.Paxos.Log.{blank}
use simple_distributed_files.Paxos.Proposer.{isamember}
use simple_distributed_files.Config.{value, members, read_words, get_view, ismember}
use simple_distributed_files.Rsm.{Rsm, rsm_new, first_member, choose, set_primary, commit_change_wo}
use simple_distributed_files.Rsm.{Transferres, differs, transferreq, statetransfer}
use simple_distributed_files.Rpc.Marshall.{ReqHeader, Marshall}
use simple_distributed_files.Rpc.RoundTrip.{uint_bytes, string_bytes}
use simple_distributed_files.Rpc.Typed.{cstr, call_request, answer, take_reply}
use simple_distributed_files.Rsm.Messages.{viewstamp_bytes, transferres_wire}
use simple_distributed_files.Rsm.Carried.{
  transferreq_wire, transfer_method, if_ok, transfer_carried,
}
use simple_distributed_files.Rsm.Primary.{
  AreLinked, commit_all, later, commit_all_lem, primaries_disagree,
}

abbrev node_a : Bytes
node_a = 49 ∷ []

abbrev node_b : Bytes
node_b = 50 ∷ []

-- Node a starts alone, node b joins, a is taken out and comes back.
abbrev view_of : ℕ → Bytes
view_of i =
    if i == 1
    then value (node_a ∷ [])
    else if i == 2
    then value (node_a ∷ node_b ∷ [])
    else if i == 3
    then value (node_b ∷ [])
    else if i == 4
    then value (node_b ∷ node_a ∷ [])
    else []

abbrev acceptor : Acceptor
acceptor = record (blank true node_a []) { values = view_of }

abbrev node : Rsm
node = rsm_new node_a node_b 0

abbrev committed : Option Rsm → Rsm
committed none = node
committed (some r) = r

abbrev second : Rsm
second = record node { vid_commit = 2 }

abbrev third : Rsm
third = committed (commit_change_wo 3 acceptor second)

primaries_disagree_example :
    ((committed (commit_change_wo 4 acceptor node)).primary ≡ node_a)
    × ((committed (commit_change_wo 4 acceptor third)).primary ≢ node_a)
unfolding commit_change_wo set_primary choose first_member isamember str_eq get_view members
    read_words value is_space ismember Stream.read_word
primaries_disagree_example =
    primaries_disagree acceptor 2 second node third (committed (commit_change_wo 4 acceptor third))
      (committed (commit_change_wo 4 acceptor node)) (omega arith) (omega arith) refl refl refl refl
      refl refl

acceptor-AreLinked : AreLinked node_a acceptor 2
unfolding isamember str_eq get_view members read_words value is_space Stream.read_word
acceptor-AreLinked = record {
  begins = refl;
  shares = λ v above below.
      let two : 2 ≡ v = omega (arith, above, below) in
      subst
        (λ w.
          (x : Bytes) × Has x (get_view acceptor (w - 1))
          × (isamember x (get_view acceptor w) ≡ true))
        two (node_a, inl refl, refl);
}

commit_all_lem_example :
    (r : Rsm) × (commit_all (2 ∷ 1 ∷ []) acceptor (rsm_new node_a node_b 0) ≡ some r)
    × (r.vid_commit ≡ later 0 (2 ∷ 1 ∷ []))
    × (((r.vid_commit ≡ 0) × (r.primary ≡ node_a))
        ⊎ ((0 < r.vid_commit) × (isamember r.primary (get_view acceptor r.vid_commit) ≡ true)))
commit_all_lem_example =
    commit_all_lem (2 ∷ 1 ∷ []) node_a node_b 0 acceptor 2 acceptor-AreLinked (omega arith)

-- A primary that synchronises for view 2, and a backup that is behind.
abbrev ahead : Rsm
ahead = record node { insync = true; vid_insync = 2; last_myvs = record { vid = 1; seqno = 7 } }

abbrev behind : Rsm
behind = record node { vid_insync = 2; last_myvs = record { vid = 1; seqno = 3 } }

abbrev request : ReqHeader
request = record { xid = 1; proc = 65538; clt_nonce = 9; srv_nonce = 4; xid_rep = 0 }

transfer_carried_example :
    (rep : Marshall) × (b : ℕ) × (t : Transferres) × (answer transferreq_wire transferres_wire
        (transfer_method (120 ∷ []))
        (cstr
          (0 ∷ 0 ∷ 0 ∷ 0 ∷ [])
          []
          (call_request transferreq_wire request ((node_b, behind.last_myvs), 2)))
        ahead
      ≡ some (rep, ahead))
    × (take_reply transferres_wire (cstr (0 ∷ 0 ∷ 0 ∷ 9 ∷ []) (replicate 12 7) rep)
        ≡ some (b, some t))
    × (statetransfer true (if_ok b (some t)) behind
        ≡ (record behind { last_myvs = ahead.last_myvs }, some (120 ∷ []), true))
unfolding transfer_method transferreq differs string_bytes uint_bytes viewstamp_bytes
transfer_carried_example =
    transfer_carried (120 ∷ []) node_b ahead behind request (0 ∷ 0 ∷ 0 ∷ 0 ∷ [])
      (0 ∷ 0 ∷ 0 ∷ 9 ∷ []) (replicate 12 7)
      (record {
        xid = omega arith;
        proc = omega arith;
        clt_nonce = omega arith;
        srv_nonce = omega arith;
        xid_rep = omega arith;
      })
      (omega arith, omega arith) (omega arith, omega arith, omega arith) (omega arith) (omega arith)
      refl refl refl
