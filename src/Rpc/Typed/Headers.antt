-- ===== src/Rpc/Typed/Headers.antt =====
-- The headers of requests and replies, as rpc/marshall.h packs them, are unpacked again.
use simple_distributed_files.Prelude.{
  ℕ, ◌+◌, ◌<◌, ◌≡◌, refl, sym, ap, ◌∙◌, true, [], ◌++◌, append_assoc, Option, none, some, arith,
  Bytes, length, drop, length-append, drop-append,
}
use simple_distributed_files.Rpc.Marshall.{ReqHeader, ReplyHeader, rpc_header_sz, word}
use simple_distributed_files.Rpc.Unmarshall.{
  Unmarshall, Reader, ◌>>=◌, pure, u32, unpack_req_header, unpack_reply_header, req_words,
  reply_words, get_uint,
}
use simple_distributed_files.Rpc.RoundTrip.{
  uint_bytes, get_uint-Reads, Reads, Reads-bind, Reads-last,
}

-- `req_words` after its first words.
abbrev last_word : ℕ → ℕ → ℕ → ℕ → Reader ReqHeader
last_word a b c d = do
  e ← get_uint
  pure (record { xid = a; proc = b; clt_nonce = c; srv_nonce = d; xid_rep = e })

abbrev two_words : ℕ → ℕ → ℕ → Reader ReqHeader
two_words a b c = do d ← get_uint; last_word a b c d

abbrev three_words : ℕ → ℕ → Reader ReqHeader
three_words a b = do c ← get_uint; two_words a b c

abbrev four_words : ℕ → Reader ReqHeader
four_words a = do b ← get_uint; three_words a b

req_words-Reads :
    (a b c d e : ℕ)
    → a < u32
    → b < u32
    → c < u32
    → d < u32
    → e < u32
    → Reads req_words
        (word a ++ (word b ++ (word c ++ (word d ++ word e))))
        (record { xid = a; proc = b; clt_nonce = c; srv_nonce = d; xid_rep = e })
unfolding req_words uint_bytes
req_words-Reads a b c d e ha hb hc hd he =
    let h : ReqHeader = record { xid = a; proc = b; clt_nonce = c; srv_nonce = d; xid_rep = e } in
    Reads-bind get_uint four_words (word a) (word b ++ (word c ++ (word d ++ word e))) a h
      (get_uint-Reads a ha)
      (Reads-bind get_uint (three_words a) (word b) (word c ++ (word d ++ word e)) b h
        (get_uint-Reads b hb)
        (Reads-bind get_uint (two_words a b) (word c) (word d ++ word e) c h (get_uint-Reads c hc) (
          Reads-bind get_uint (last_word a b c) (word d) (word e) d h (get_uint-Reads d hd) (
            Reads-last get_uint
              (λ x. record { xid = a; proc = b; clt_nonce = c; srv_nonce = d; xid_rep = x })
              (word e) e h refl (get_uint-Reads e he)))))

reply_words-Reads :
    (a b : ℕ)
    → a < u32
    → b < u32
    → Reads reply_words (word a ++ word b) (record { xid = a; ret = b })
unfolding reply_words uint_bytes
reply_words-Reads a b ha hb =
    Reads-bind get_uint (λ x. do y ← get_uint; pure (record { xid = x; ret = y })) (word a) (word b)
      a (record { xid = a; ret = b }) (get_uint-Reads a ha)
      (Reads-last get_uint (λ y. record { xid = a; ret = y }) (word b) b
        (record { xid = a; ret = b }) refl (get_uint-Reads b hb))

-- The words of a header, read behind the word of the channel.
words_read :
    {H : Type 0} (get : Reader H) (ws : Bytes) (h : H) (channel tail : Bytes)
    → Reads get ws h
    → length channel ≡ 4
    → 4 + length ws + length tail < u32
    → get (record { ind = 4; rest = drop 4 (channel ++ (ws ++ tail)); ok = true })
      ≡ some (h, record { ind = 4 + length ws; rest = tail; ok = true })
words_read get ws h channel tail r four fits =
    ap (λ x. get (record { ind = 4; rest = x; ok = true }))
      (ap (λ n. drop n (channel ++ (ws ++ tail))) (sym four) ∙ drop-append channel (ws ++ tail))
    ∙ r 4 tail fits

-- The content behind the whole header.
pub behind_header :
    (channel ws unused content : Bytes)
    → length channel ≡ 4
    → 4 + length ws + length unused ≡ rpc_header_sz
    → drop rpc_header_sz (channel ++ (ws ++ (unused ++ content))) ≡ content
behind_header channel ws unused content four full =
    let whole : Bytes = channel ++ (ws ++ unused) in
    let long : rpc_header_sz ≡ length whole =
      omega (arith, length-append channel (ws ++ unused), length-append ws unused, four, full) in
    ap (drop rpc_header_sz) (
      ap (λ x. channel ++ x) (sym (append_assoc ws unused content))
      ∙ sym (append_assoc channel (ws ++ unused) content))
    ∙ ap (λ n. drop n (whole ++ content)) long
    ∙ drop-append whole content

-- The words of this header fit.
pub record IsFitting (h : ReqHeader) : Type 0 where
  pub xid : h.xid < u32
  pub proc : h.proc < u32
  pub clt_nonce : h.clt_nonce < u32
  pub srv_nonce : h.srv_nonce < u32
  pub xid_rep : h.xid_rep < u32

abbrev pub request_words : ReqHeader → Bytes
request_words h =
    word h.xid ++ (word h.proc ++ (word h.clt_nonce ++ (word h.srv_nonce ++ word h.xid_rep)))

unpack_req_with :
    (buf : Bytes) (h : ReqHeader) (u : Unmarshall)
    → req_words (record { ind = 4; rest = drop 4 buf; ok = true }) ≡ some (h, u)
    → unpack_req_header buf
      ≡ some (h, record { ind = rpc_header_sz; rest = drop rpc_header_sz buf; ok = u.ok })
unfolding unpack_req_header
unpack_req_with buf h u e =
    ap
      (λ o. elim o as (λ x. Option (ReqHeader × Unmarshall)) [
        | none ↦ none
        | some x ↦
            some (x.0, record { ind = rpc_header_sz; rest = drop rpc_header_sz buf; ok = x.1.ok })
      ])
      e

unpack_reply_with :
    (buf : Bytes) (h : ReplyHeader) (u : Unmarshall)
    → reply_words (record { ind = 4; rest = drop 4 buf; ok = true }) ≡ some (h, u)
    → unpack_reply_header buf
      ≡ some (h, record { ind = rpc_header_sz; rest = drop rpc_header_sz buf; ok = u.ok })
unfolding unpack_reply_header
unpack_reply_with buf h u e =
    ap
      (λ o. elim o as (λ x. Option (ReplyHeader × Unmarshall)) [
        | none ↦ none
        | some x ↦
            some (x.0, record { ind = rpc_header_sz; rest = drop rpc_header_sz buf; ok = x.1.ok })
      ])
      e

pub unpack_request :
    (h : ReqHeader) (channel content : Bytes)
    → IsFitting h
    → length channel ≡ 4
    → rpc_header_sz + length content < u32
    → unpack_req_header (channel ++ (request_words h ++ content))
      ≡ some (h, record { ind = rpc_header_sz; rest = content; ok = true })
unfolding unpack_req_header
unpack_request h channel content f four fits =
    let read =
      words_read req_words (request_words h) h channel content
        (req_words-Reads h.xid h.proc h.clt_nonce h.srv_nonce h.xid_rep f.xid f.proc f.clt_nonce
          f.srv_nonce f.xid_rep)
        four fits in
    unpack_req_with (channel ++ (request_words h ++ content)) h _ read
    ∙ ap (λ x. some (h, record { ind = rpc_header_sz; rest = x; ok = true }))
        (behind_header channel (request_words h) [] content four refl)

pub unpack_reply :
    (xid ret : ℕ) (channel unused content : Bytes)
    → xid < u32
    → ret < u32
    → length channel ≡ 4
    → length unused ≡ 12
    → rpc_header_sz + length content < u32
    → unpack_reply_header (channel ++ ((word xid ++ word ret) ++ (unused ++ content)))
      ≡ some (
        record { xid = xid; ret = ret },
        record { ind = rpc_header_sz; rest = content; ok = true },
      )
unfolding unpack_reply_header
unpack_reply xid ret channel unused content hx hr four pad fits =
    let read =
      words_read reply_words (word xid ++ word ret) (record { xid = xid; ret = ret }) channel
        (unused ++ content) (reply_words-Reads xid ret hx hr) four
        (omega (arith, fits, pad, length-append unused content)) in
    unpack_reply_with (channel ++ ((word xid ++ word ret) ++ (unused ++ content)))
      (record { xid = xid; ret = ret }) _ read
    ∙ ap
        (λ x.
          some
            (record { xid = xid; ret = ret }, record { ind = rpc_header_sz; rest = x; ok = true }))
        (behind_header channel (word xid ++ word ret) unused content four (omega (arith, pad)))
