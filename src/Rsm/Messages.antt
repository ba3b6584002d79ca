-- ===== src/Rsm/Messages.antt =====
-- The messages between replicas, of rsm_protocol.h, over the marshalling of rpc/rpc.cc.
use simple_distributed_files.Prelude.{◌<◌, refl, [], ◌++◌, Bytes}
use simple_distributed_files.Rpc.Marshall.{Marshall, put_uint, put_string}
use simple_distributed_files.Rpc.Unmarshall.{Reader, ◌>>=◌, pure, u32, get_uint, get_string}
use simple_distributed_files.Rpc.RoundTrip.{
  Reads-bind, Reads-last, Writes-then, uint_bytes, string_bytes, put_uint-Writes, get_uint-Reads,
  put_string-Writes, get_string-Reads,
}
use simple_distributed_files.Rpc.Typed.{Wire, IsFaithful}
use simple_distributed_files.Rsm.{Viewstamp, Transferres}

unfoldable pub put_viewstamp : Viewstamp → Marshall → Marshall
put_viewstamp v m = put_uint v.seqno (put_uint v.vid m)

unfoldable pub get_viewstamp : Reader Viewstamp
get_viewstamp = do vid ← get_uint; seqno ← get_uint; pure (record { vid = vid; seqno = seqno })

unfoldable pub put_transferres : Transferres → Marshall → Marshall
put_transferres r m = put_viewstamp r.last (put_string r.state m)

unfoldable pub get_transferres : Reader Transferres
get_transferres = do
  state ← get_string []
  last ← get_viewstamp
  pure (record { state = state; last = last })

-- `joinres`, which is its log.
pub record Joinres : Type 0 where
  pub log : Bytes

unfoldable pub put_joinres : Joinres → Marshall → Marshall
put_joinres r = put_string r.log

unfoldable pub get_joinres : Reader Joinres
get_joinres = do log ← get_string []; pure (record { log = log })

unfoldable pub viewstamp_bytes : Viewstamp → Bytes
viewstamp_bytes v = uint_bytes v.vid ++ uint_bytes v.seqno

abbrev pub viewstamp_wire : Wire Viewstamp
viewstamp_wire = record { put = put_viewstamp; get = get_viewstamp; bytes = viewstamp_bytes }

abbrev pub transferres_wire : Wire Transferres
transferres_wire = record {
  put = put_transferres;
  get = get_transferres;
  bytes = λ r. string_bytes r.state ++ viewstamp_bytes r.last;
}

abbrev pub joinres_wire : Wire Joinres
joinres_wire = record { put = put_joinres; get = get_joinres; bytes = λ r. string_bytes r.log }

pub viewstamp-IsFaithful :
    (v : Viewstamp) → v.vid < u32 → v.seqno < u32 → IsFaithful viewstamp_wire v
unfolding put_viewstamp get_viewstamp viewstamp_bytes
viewstamp-IsFaithful v h k = record {
  writes =
      Writes-then (put_uint v.vid) (put_uint v.seqno) (uint_bytes v.vid) (uint_bytes v.seqno)
        (put_uint-Writes v.vid) (put_uint-Writes v.seqno);
  reads =
      Reads-bind get_uint (λ x. do y ← get_uint; pure (record { vid = x; seqno = y }))
        (uint_bytes v.vid) (uint_bytes v.seqno) v.vid v (get_uint-Reads v.vid h)
        (Reads-last get_uint (λ y. record { vid = v.vid; seqno = y }) (uint_bytes v.seqno) v.seqno v
          refl (get_uint-Reads v.seqno k));
}

pub transferres-IsFaithful :
    (r : Transferres) → r.last.vid < u32 → r.last.seqno < u32 → IsFaithful transferres_wire r
unfolding put_transferres get_transferres
transferres-IsFaithful r h k =
    let f : IsFaithful viewstamp_wire r.last = viewstamp-IsFaithful r.last h k in
    record {
      writes =
          Writes-then (put_string r.state) (put_viewstamp r.last) (string_bytes r.state)
            (viewstamp_bytes r.last) (put_string-Writes r.state) f.writes;
      reads =
          Reads-bind (get_string [])
            (λ x. do y ← get_viewstamp; pure (record { state = x; last = y }))
            (string_bytes r.state) (viewstamp_bytes r.last) r.state r (get_string-Reads [] r.state)
            (Reads-last get_viewstamp (λ y. record { state = r.state; last = y })
              (viewstamp_bytes r.last) r.last r refl f.reads);
    }

pub joinres-IsFaithful : (r : Joinres) → IsFaithful joinres_wire r
unfolding put_joinres get_joinres
joinres-IsFaithful r = record {
  writes = put_string-Writes r.log;
  reads =
      Reads-last (get_string []) (λ x. record { log = x }) (string_bytes r.log) r.log r refl
        (get_string-Reads [] r.log);
}
