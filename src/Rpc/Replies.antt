-- ===== src/Rpc/Replies.antt =====
-- What a copy of a request meets in the window: a kept reply; and where the window fails it, at
-- the first request and at old ones.
use simple_distributed_files.Prelude.{
  ℕ, ◌≤◌, ◌<◌, ◌≡◌, refl, ap, ◌∙◌, ◌⊎◌, inl, inr, true, false, ◌&&◌, List, [], ◌∷◌, ◌++◌, arith,
  Bytes, ltb, ◌==◌, if◌then◌else◌, All, Bool-cases, ==_iff,
}
use simple_distributed_files.Rpc.Window.{
  ReplyT, pending, RpcState, new, inprogress, forgotten, done, find_min, clean, scan, check_replies,
  add_to_replies,
}
use simple_distributed_files.Rpc.AtMostOnce.{check_recent, check_old, remember-state}

abbrev Unanswered : ℕ → ReplyT → Type 0
Unanswered xid r = (r.xid == xid && r.cb_present) ≡ false

abbrev answer : ℕ → Bytes → ReplyT
answer xid b = record { xid = xid; cb_present = true; buf = b }

scan-answer :
    (xid : ℕ) (b : Bytes) (rs : List ReplyT) (s : RpcState)
    → All (Unanswered xid) rs
    → scan xid s (rs ++ answer xid b ∷ []) ≡ done b
unfolding scan
scan-answer xid b [] s h = ground (arith, (==_iff xid xid).1 refl)
scan-answer xid b (r ∷ rs) s h =
    rw h.0 (scan-answer xid b rs (if r.xid == xid then inprogress else s) h.1)

clean-answer :
    (xid xid_rep : ℕ) (b : Bytes) (rs : List ReplyT)
    → xid_rep ≤ xid
    → clean xid_rep (rs ++ answer xid b ∷ []) ≡ clean xid_rep rs ++ answer xid b ∷ []
unfolding clean
clean-answer xid xid_rep b [] le = ground arith
clean-answer xid xid_rep b (r ∷ rs) le = ground (arith, clean-answer xid xid_rep b rs le)

clean-Unanswered :
    (xid xid_rep : ℕ) (rs : List ReplyT)
    → All (Unanswered xid) rs
    → All (Unanswered xid) (clean xid_rep rs)
unfolding clean
clean-Unanswered xid xid_rep [] h = tt
clean-Unanswered xid xid_rep (r ∷ rs) h = elim (Bool-cases (ltb r.xid xid_rep)) [
  | inl gone ↦ rw (gone, clean) (clean-Unanswered xid xid_rep rs h.1)
  | inr kept ↦ rw (kept, clean) (h.0, clean-Unanswered xid xid_rep rs h.1)
]

-- Once a request has been answered, for which the window had no reply before, a copy of it gets
-- that reply again, or is refused as too old; it is not called and not dropped. The copy does
-- not confirm the reply.
reply_resent :
    (xid later_rep : ℕ) (b : Bytes) (r : ReplyT) (rs : List ReplyT)
    → All (Unanswered xid) (r ∷ rs)
    → later_rep ≤ xid
    → ((check_replies xid later_rep (add_to_replies xid b (r ∷ rs))).1 ≡ done b)
      ⊎ ((check_replies xid later_rep (add_to_replies xid b (r ∷ rs))).1 ≡ forgotten)
unfolding add_to_replies
reply_resent xid later_rep b r rs h le =
    let all : List ReplyT = r ∷ (rs ++ answer xid b ∷ []) in
    elim (Bool-cases (ltb xid (find_min xid r.xid all))) [
      | inl old ↦ inr (ap (λ c. c.1) (check_old xid later_rep r (rs ++ answer xid b ∷ []) old))
      | inr recent ↦ inl (
          ap (λ c. c.1) (check_recent xid later_rep r (rs ++ answer xid b ∷ []) recent)
          ∙ remember-state xid (clean later_rep all) _
          ∙ ap (scan xid new) (clean-answer xid later_rep b (r ∷ rs) le)
          ∙ scan-answer xid b (clean later_rep (r ∷ rs)) new
              (clean-Unanswered xid later_rep (r ∷ rs) h))
    ]

-- The very first request of a client, whose xid is positive, is taken for new and not recorded:
-- while it is served, a copy of it is taken for new again.
first_request_repeats :
    (xid xid_rep later_rep : ℕ)
    → 0 < xid
    → ((check_replies xid xid_rep []).1 ≡ new)
      × ((check_replies xid later_rep (check_replies xid xid_rep []).0).1 ≡ new)
unfolding check_replies find_min clean scan
first_request_repeats xid xid_rep later_rep pos = ground arith

-- Where the window has a smaller number, which is not confirmed, behind a greater one, an old
-- request below both is not forgotten: it is taken for new.
old_request_called :
    (xid xid_rep a b : ℕ)
    → xid < b
    → b < a
    → xid_rep ≤ b
    → (check_replies xid xid_rep (pending a ∷ pending b ∷ [])).1 ≡ new
unfolding check_replies find_min clean scan
old_request_called xid xid_rep a b h k l = ground arith
