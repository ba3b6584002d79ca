-- ===== src/Rsm/Carried.antt =====
-- State transfer (rsm.cc) by a typed call (rpc/rpc.h): the backup's request and the primary's reply
-- as bytes.
use simple_distributed_files.Prelude.{
  ℕ, ◌+◌, ◌<◌, ◌≡◌, refl, ap, ◌∙◌, true, false, ◌&&◌, Option, none, some, [], Bytes, arith, ◌==◌,
  if◌then◌else◌, length,
}
use simple_distributed_files.Rpc.Marshall.{ReqHeader, Marshall, rpc_header_sz, put_uint, put_string}
use simple_distributed_files.Rpc.Unmarshall.{u32, get_uint, get_string}
use simple_distributed_files.Rpc.RoundTrip.{
  uint_bytes, string_bytes, put_uint-Writes, get_uint-Reads, put_string-Writes, get_string-Reads,
}
use simple_distributed_files.Rpc.Typed.{
  Wire, IsFaithful, both, both-IsFaithful, cstr, call_request, answer, take_reply,
}
use simple_distributed_files.Rpc.Typed.Headers.{IsFitting}
use simple_distributed_files.Rpc.Typed.EndToEnd.{typed_call}
use simple_distributed_files.Rsm.{
  Viewstamp, Rsm, Status, ok, err, busy, Transferres, differs, transferreq, statetransfer,
}
use simple_distributed_files.Rsm.Messages.{
  viewstamp_wire, transferres_wire, viewstamp-IsFaithful, transferres-IsFaithful,
}
use simple_distributed_files.Rsm.Transfer.{state_transferred}

abbrev pub uint_wire : Wire ℕ
uint_wire = record { put = put_uint; get = get_uint; bytes = uint_bytes }

abbrev pub string_wire : Wire Bytes
string_wire = record { put = put_string; get = get_string []; bytes = string_bytes }

-- The arguments of `transferreq`: who asks, its last viewstamp, and the view.
abbrev pub transferreq_wire : Wire ((Bytes × Viewstamp) × ℕ)
transferreq_wire = both (both string_wire viewstamp_wire) uint_wire

-- The numbers of `xxstatus`.
abbrev pub code : Status → ℕ
code ok = 0
code err = 1
code busy = 2

-- A result that the handler does not set.
abbrev pub set_or_new : Option Transferres → Transferres
set_or_new none = record { state = []; last = record { vid = 0; seqno = 0 } }
set_or_new (some t) = t

-- `transferreq` as the method that is registered, where there is a state to transfer.
unfoldable pub transfer_method : Bytes → (Bytes × Viewstamp) × ℕ → Rsm → ℕ × Transferres × Rsm
transfer_method state ((src, last), vid) r =
    let (ret, t) = transferreq last vid (some state) r in (code ret, set_or_new t, r)

-- The test of `ret` in `statetransfer`.
abbrev pub if_ok : ℕ → Option Transferres → Option Transferres
if_ok b t = if b == 0 then t else none

method_small :
    (state : Bytes) (a : (Bytes × Viewstamp) × ℕ) (r : Rsm)
    → (transfer_method state a r).0 < 2147483648
unfolding transfer_method transferreq
method_small state ((src, last), vid) r = ground arith

if_ok-method :
    (state src : Bytes) (last : Viewstamp) (vid : ℕ) (r : Rsm)
    → let m = transfer_method state ((src, last), vid) r in
      if_ok m.0 (some m.1) ≡ (transferreq last vid (some state) r).1
unfolding transfer_method transferreq
if_ok-method state src last vid r = ground arith

last_word :
    (state : Bytes) (a : (Bytes × Viewstamp) × ℕ) (r : Rsm)
    → r.last_myvs.vid < u32
    → r.last_myvs.seqno < u32
    → let t = (transfer_method state a r).1 in (t.last.vid < u32) × (t.last.seqno < u32)
unfolding transfer_method transferreq
last_word state ((src, last), vid) r h k = ground (arith, h, k)

same_primary :
    (state : Bytes) (a : (Bytes × Viewstamp) × ℕ) (r : Rsm) → (transfer_method state a r).2 ≡ r
unfolding transfer_method
same_primary state ((src, last), vid) r = refl

-- A backup that asks the primary for its state over the network, both with viewstamps and a view of
-- 32 bits and with a state to transfer: the request, as bytes, is answered by the primary, which
-- stays as it was, and the reply, as bytes, is a result for the backup, by which `statetransfer`
-- takes over the primary's last viewstamp if the primary is synchronising for the same view, and
-- the primary's state exactly if the two differed before; otherwise nothing changes. The messages
-- are shorter than 2 ^ 32 bytes with their headers, and the request is a new one.
pub transfer_carried :
    (state src : Bytes) (r s : Rsm) (h : ReqHeader) (channel channel' unused : Bytes)
    → IsFitting h
    → (r.last_myvs.vid < u32) × (r.last_myvs.seqno < u32)
    → (s.last_myvs.vid < u32) × (s.last_myvs.seqno < u32) × (s.vid_insync < u32)
    → let a : (Bytes × Viewstamp) × ℕ = ((src, s.last_myvs), s.vid_insync) in
      rpc_header_sz + length (transferreq_wire.bytes a) < u32
      → rpc_header_sz + length (transferres_wire.bytes (transfer_method state a r).1) < u32
      → length channel ≡ 4
      → length channel' ≡ 4
      → length unused ≡ 12
      → (rep : Marshall) × (b : ℕ) × (t : Transferres) × (answer transferreq_wire transferres_wire
            (transfer_method state)
            (cstr channel [] (call_request transferreq_wire h a))
            r
          ≡ some (rep, r))
        × (take_reply transferres_wire (cstr channel' unused rep) ≡ some (b, some t))
        × (statetransfer true (if_ok b (some t)) s ≡ (
            if r.insync && s.vid_insync == r.vid_insync
            then (
              record s { last_myvs = r.last_myvs },
              (if differs s.last_myvs r.last_myvs then some state else none),
              true,
            )
            else (s, none, false)))
transfer_carried state src r s h channel channel' unused fit (rv, rs) (sv, ss, sy) fits fits' four
      four' pad =
    let a : (Bytes × Viewstamp) × ℕ = ((src, s.last_myvs), s.vid_insync) in
    let m = transfer_method state a r in
    let args : IsFaithful transferreq_wire a =
      both-IsFaithful (both string_wire viewstamp_wire) uint_wire (src, s.last_myvs) s.vid_insync
        (both-IsFaithful string_wire viewstamp_wire src s.last_myvs
          (record { writes = put_string-Writes src; reads = get_string-Reads [] src })
          (viewstamp-IsFaithful s.last_myvs sv ss))
        (record {
          writes = put_uint-Writes s.vid_insync;
          reads = get_uint-Reads s.vid_insync sy;
        }) in
    let words = last_word state a r rv rs in
    let (rep, answered, taken) =
      typed_call ((Bytes × Viewstamp) × ℕ) Transferres Rsm transferreq_wire transferres_wire
        (transfer_method state) h a r channel channel' unused fit args
        (transferres-IsFaithful m.1 words.0 words.1) (method_small state a r) fits fits' four four'
        pad in
    (
      rep,
      m.0,
      m.1,
      answered ∙ ap (λ (x : Rsm). some (rep, x)) (same_primary state a r),
      taken,
      ap (λ o. statetransfer true o s) (if_ok-method state src s.last_myvs s.vid_insync r)
          ∙ (state_transferred r s state).1,
    )
