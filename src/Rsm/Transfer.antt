-- ===== src/Rsm/Transfer.antt =====
-- State transfer between two nodes of a replicated service (rsm.cc): the primary's answer to
-- `transferreq`, taken in by `statetransfer`.
use simple_distributed_files.Prelude.{
  ◌≡◌, true, false, ◌&&◌, none, some, Bytes, arith, ◌==◌, if◌then◌else◌,
}
use simple_distributed_files.Rsm.{Rsm, ok, busy, differs, transferreq, statetransfer}

-- A node that asks another for its state: if the other is synchronising for the same view, the
-- node has its last viewstamp afterwards, and takes in its state exactly if the two differed
-- before; otherwise the other is busy and nothing changes.
pub state_transferred :
    (r s : Rsm) (state : Bytes)
    → ((transferreq s.last_myvs s.vid_insync (some state) r).0
        ≡ (if r.insync && s.vid_insync == r.vid_insync then ok else busy))
      × (statetransfer true (transferreq s.last_myvs s.vid_insync (some state) r).1 s ≡ (
          if r.insync && s.vid_insync == r.vid_insync
          then (
            record s { last_myvs = r.last_myvs },
            (if differs s.last_myvs r.last_myvs then some state else none),
            true,
          )
          else (s, none, false)))
unfolding transferreq statetransfer
state_transferred r s state = (ground arith, ground arith)
