-- ===== src/Rpc/Typed/EndToEnd.antt =====
-- A typed call of rpc/rpc.h from its arguments to its result.
use simple_distributed_files.Prelude.{
  ℕ, ◌+◌, ◌<◌, ◌≡◌, refl, sym, ap, ◌∙◌, true, [], ◌++◌, append-nil, some, arith, Bytes, ltb, leb,
  length, length-append,
}
use simple_distributed_files.Rpc.Marshall.{
  ReqHeader, Marshall, marshall_new, rpc_header_sz, word, pack_req_header, pack_reply_header,
}
use simple_distributed_files.Rpc.Unmarshall.{Unmarshall, u32, take_in, okdone}
use simple_distributed_files.Rpc.Typed.{
  Wire, IsFaithful, cstr, call_request, fn_with, fn, reply_to, answer_with, answer, call_done,
  call_m, reply_with, take_reply,
}
use simple_distributed_files.Rpc.Typed.Headers.{
  IsFitting, request_words, unpack_request, unpack_reply, behind_header,
}

-- A value that is alone in a message is read from it, and the message is done then.
read_alone :
    {A : Type 0} (w : Wire A) (a : A)
    → IsFaithful w a
    → rpc_header_sz + length (w.bytes a) < u32
    → (u : Unmarshall) × (w.get (record { ind = rpc_header_sz; rest = w.bytes a; ok = true })
        ≡ some (a, u))
      × (okdone u ≡ true)
unfolding okdone
read_alone w a f fits = (
  record { ind = rpc_header_sz + length (w.bytes a); rest = []; ok = true },
  ap (λ x. w.get (record { ind = rpc_header_sz; rest = x; ok = true }))
        (sym (append-nil (w.bytes a)))
      ∙ f.reads rpc_header_sz [] (omega (arith, fits)),
  ground arith,
)

-- The method runs once, on what was sent.
fn_lem :
    {A R S : Type 0} (wa : Wire A) (wr : Wire R) (meth : A → S → ℕ × R × S) (a : A) (s : S)
    → IsFaithful wa a
    → rpc_header_sz + length (wa.bytes a) < u32
    → fn wa wr meth (record { ind = rpc_header_sz; rest = wa.bytes a; ok = true }) marshall_new s
      ≡ some ((meth a s).0, wr.put (meth a s).1 marshall_new, (meth a s).2)
unfolding fn fn_with
fn_lem wa wr meth a s f fits =
    let (u, read, complete) = read_alone wa a f fits in
    ap (fn_with wa wr meth marshall_new s) read ∙ rw complete refl

-- What the server sends back for a request.
answer_lem :
    {A R S : Type 0} (wa : Wire A) (wr : Wire R) (meth : A → S → ℕ × R × S) (h : ReqHeader) (a : A)
    (s : S) (channel : Bytes)
    → IsFitting h
    → IsFaithful wa a
    → rpc_header_sz + length (wa.bytes a) < u32
    → length channel ≡ 4
    → (meth a s).0 < 2147483648
    → answer wa wr meth (cstr channel [] (call_request wa h a)) s
      ≡ some (
        pack_reply_header
            (record { xid = h.xid; ret = (meth a s).0 })
            (wr.put (meth a s).1 marshall_new),
        (meth a s).2,
      )
unfolding answer call_request pack_req_header answer_with reply_to
answer_lem wa wr meth h a s channel fit f fits four small =
    ap (λ c. answer wa wr meth (channel ++ (request_words h ++ c)) s) (f.writes marshall_new)
    ∙ ap (answer_with wa wr meth s) (unpack_request h channel (wa.bytes a) fit four fits)
    ∙ ap (reply_to wa wr meth h.xid) (fn_lem wa wr meth a s f fits)
    ∙ ground (arith, small)

take_in_behind :
    (channel ws unused content : Bytes)
    → length channel ≡ 4
    → 4 + length ws + length unused ≡ rpc_header_sz
    → take_in (channel ++ (ws ++ (unused ++ content)))
      ≡ record { ind = rpc_header_sz; rest = content; ok = true }
unfolding take_in
take_in_behind channel ws unused content four full =
    let long : leb rpc_header_sz (length (channel ++ (ws ++ (unused ++ content)))) ≡ true = ground (
      arith,
      length-append channel (ws ++ (unused ++ content)),
      length-append ws (unused ++ content),
      length-append unused content,
      four,
      full,
    ) in
    rw (behind_header channel ws unused content four full, long) refl

call_m_lem :
    {R : Type 0} (w : Wire R) (b : ℕ) (r : R) (v u : Unmarshall)
    → b < 2147483648
    → w.get v ≡ some (r, u)
    → okdone u ≡ true
    → call_m w b v ≡ some (b, some r)
unfolding call_m call_done
call_m_lem w b r v u small read complete =
    let positive : ltb b 2147483648 ≡ true = ground (arith, small) in
    rw (positive, read, complete) refl

-- A typed call, from the client's arguments to its result: for types whose operators read back what
-- they write of these values, the request that `call` makes, delivered to the server as a new one,
-- runs the method on exactly these arguments, and the reply, delivered to the client, returns
-- exactly the method's number and result. The method's number is not negative, the header's words
-- and the sizes of the messages are below 2 ^ 32, whatever the channel's word and the unused part
-- of the reply's header hold.
pub typed_call :
    (A R S : Type 0) (wa : Wire A) (wr : Wire R) (meth : A → S → ℕ × R × S) (h : ReqHeader) (a : A)
    (s : S) (channel channel' unused : Bytes)
    → IsFitting h
    → IsFaithful wa a
    → IsFaithful wr (meth a s).1
    → (meth a s).0 < 2147483648
    → rpc_header_sz + length (wa.bytes a) < u32
    → rpc_header_sz + length (wr.bytes (meth a s).1) < u32
    → length channel ≡ 4
    → length channel' ≡ 4
    → length unused ≡ 12
    → (rep : Marshall) × (answer wa wr meth (cstr channel [] (call_request wa h a)) s
        ≡ some (rep, (meth a s).2))
      × (take_reply wr (cstr channel' unused rep) ≡ some ((meth a s).0, some (meth a s).1))
unfolding take_reply pack_reply_header reply_with
typed_call A R S wa wr meth h a s channel channel' unused fit f g small fits fits' four four' pad =
    let r : R = (meth a s).1 in
    let b : ℕ = (meth a s).0 in
    let buf : Bytes = channel' ++ ((word h.xid ++ word b) ++ (unused ++ wr.bytes r)) in
    let (u, read, complete) = read_alone wr r g fits' in
    (
      pack_reply_header (record { xid = h.xid; ret = b }) (wr.put r marshall_new),
      answer_lem wa wr meth h a s channel fit f fits four small,
      ap (λ c. take_reply wr (channel' ++ ((word h.xid ++ word b) ++ (unused ++ c))))
            (g.writes marshall_new)
          ∙ ap (reply_with wr buf) (
              unpack_reply h.xid b channel' unused (wr.bytes r) fit.xid (omega (arith, small)) four'
                pad fits')
          ∙ ap (call_m wr b) (
              take_in_behind channel' (word h.xid ++ word b) unused (wr.bytes r) four'
                (omega (arith, pad)))
          ∙ call_m_lem wr b r _ u small read complete,
    )
