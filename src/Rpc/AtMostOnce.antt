-- ===== src/Rpc/AtMostOnce.antt =====
-- The window of one client over a history: a request that the window knows is not called again,
-- until the client confirms it.
use simple_distributed_files.Prelude.{
  ℕ, ◌≤◌, ◌≡◌, refl, sym, ◌∙◌, subst, ◌≢◌, ◌⊎◌, inl, inr, true, false, List, [], ◌∷◌, ◌++◌, arith,
  Bytes, ltb, All, Bool-cases,
}
use simple_distributed_files.Rpc.Window.{
  ReplyT, pending, RpcState, new, inprogress, forgotten, done, find_min, clean, scan, remember,
  check_replies, add_to_replies,
}

-- The window holds an entry of the request.
abbrev pub Known : ℕ → List ReplyT → Type 0
Known xid [] = ⊥
Known xid (r ∷ rs) = (r.xid ≡ xid) ⊎ Known xid rs

Known-append : (xid : ℕ) (rs qs : List ReplyT) → Known xid rs → Known xid (rs ++ qs)
Known-append xid [] qs h = absurd h
Known-append xid (r ∷ rs) qs (inl e) = inl e
Known-append xid (r ∷ rs) qs (inr h) = inr (Known-append xid rs qs h)

Known-clean :
    (xid xid_rep : ℕ) (rs : List ReplyT)
    → xid_rep ≤ xid
    → Known xid rs
    → Known xid (clean xid_rep rs)
unfolding clean
Known-clean xid xid_rep [] le h = h
Known-clean xid xid_rep (r ∷ rs) le (inl e) = ground (arith, e)
Known-clean xid xid_rep (r ∷ rs) le (inr h) = ground (arith, Known-clean xid xid_rep rs le h)

scan-inprogress : (xid : ℕ) (rs : List ReplyT) → scan xid inprogress rs ≢ new
unfolding scan
scan-inprogress xid [] e = cc e
scan-inprogress xid (r ∷ rs) e = ground (arith, scan-inprogress xid rs)

scan-Known : (xid : ℕ) (rs : List ReplyT) → Known xid rs → scan xid new rs ≢ new
unfolding scan
scan-Known xid [] h e = h
scan-Known xid (r ∷ rs) (inl h) e = ground (arith, h, scan-inprogress xid rs)
scan-Known xid (r ∷ rs) (inr h) e = ground (arith, scan-inprogress xid rs, scan-Known xid rs h)

pub remember-state : (xid : ℕ) (rs : List ReplyT) (s : RpcState) → (remember xid rs s).1 ≡ s
remember-state xid rs new = refl
remember-state xid rs inprogress = refl
remember-state xid rs forgotten = refl
remember-state xid rs (done b) = refl

remember-Known :
    (xid j : ℕ) (rs : List ReplyT) (s : RpcState) → Known j rs → Known j (remember xid rs s).0
remember-Known xid j rs new h = Known-append j rs _ h
remember-Known xid j rs inprogress h = h
remember-Known xid j rs forgotten h = h
remember-Known xid j rs (done b) h = h

forgotten_ne : forgotten ≡ new → ⊥
forgotten_ne e = cc

-- A request that is known and not confirmed is not taken for a new one.
pub check_replies-Known :
    (xid xid_rep : ℕ) (rs : List ReplyT)
    → xid_rep ≤ xid
    → Known xid rs
    → (check_replies xid xid_rep rs).1 ≢ new
unfolding check_replies
check_replies-Known xid xid_rep [] le h e = h
check_replies-Known xid xid_rep (r ∷ rs) le h e =
    elim (Bool-cases (ltb xid (find_min xid r.xid (r ∷ rs)))) [
      | inl old ↦ forgotten_ne (rw (old, check_replies) at e)
      | inr recent ↦
          scan-Known xid (clean xid_rep (r ∷ rs)) (Known-clean xid xid_rep (r ∷ rs) le h)
            (sym (remember-state xid (clean xid_rep (r ∷ rs)) _) ∙ rw (recent, check_replies) at e)
    ]

-- One request of the history, or the reply to one.
pub data Event : Type 0 where
  request : ℕ → ℕ → Event
  replied : ℕ → Bytes → Event

unfoldable pub window_step : Event → List ReplyT → List ReplyT
window_step (request xid xid_rep) rs = (check_replies xid xid_rep rs).0
window_step (replied xid b) rs = add_to_replies xid b rs

unfoldable pub window_run : List Event → List ReplyT → List ReplyT
window_run [] rs = rs
window_run (e ∷ es) rs = window_run es (window_step e rs)

-- Nothing in the history confirms the request.
abbrev pub Unconfirmed : ℕ → Event → Type 0
Unconfirmed xid (request _ xid_rep) = xid_rep ≤ xid
Unconfirmed xid (replied _ b) = Unit

pub check_old :
    (xid xid_rep : ℕ) (r : ReplyT) (rs : List ReplyT)
    → ltb xid (find_min xid r.xid (r ∷ rs)) ≡ true
    → check_replies xid xid_rep (r ∷ rs) ≡ (r ∷ rs, forgotten)
unfolding check_replies
check_old xid xid_rep r rs e = rw (e, check_replies)

pub check_recent :
    (xid xid_rep : ℕ) (r : ReplyT) (rs : List ReplyT)
    → ltb xid (find_min xid r.xid (r ∷ rs)) ≡ false
    → check_replies xid xid_rep (r ∷ rs)
      ≡ remember xid (clean xid_rep (r ∷ rs)) (scan xid new (clean xid_rep (r ∷ rs)))
unfolding check_replies
check_recent xid xid_rep r rs e = rw (e, check_replies)

pub window_step-Known :
    (xid : ℕ) (e : Event) (rs : List ReplyT)
    → Unconfirmed xid e
    → Known xid rs
    → Known xid (window_step e rs)
unfolding window_step add_to_replies
window_step-Known xid (request j xid_rep) [] u h = absurd h
window_step-Known xid (request j xid_rep) (r ∷ rs) u h =
    elim (Bool-cases (ltb j (find_min j r.xid (r ∷ rs)))) [
      | inl old ↦ subst (λ c. Known xid c.0) (sym (check_old j xid_rep r rs old)) h
      | inr recent ↦
          subst (λ c. Known xid c.0) (sym (check_recent j xid_rep r rs recent))
            (remember-Known j xid (clean xid_rep (r ∷ rs)) _ (Known-clean xid xid_rep (r ∷ rs) u h))
    ]
window_step-Known xid (replied j b) rs u h = Known-append xid rs _ h

window_run-Known :
    (xid : ℕ) (es : List Event) (rs : List ReplyT)
    → All (Unconfirmed xid) es
    → Known xid rs
    → Known xid (window_run es rs)
unfolding window_run
window_run-Known xid [] rs u h = h
window_run-Known xid (e ∷ es) rs u h =
    window_run-Known xid es (window_step e rs) u.1 (window_step-Known xid e rs u.0 h)

Known-last : (xid : ℕ) (rs : List ReplyT) (r : ReplyT) → r.xid ≡ xid → Known xid (rs ++ r ∷ [])
Known-last xid [] r e = inl e
Known-last xid (q ∷ rs) r e = inr (Known-last xid rs r e)

-- What is taken for a new request is known from then on, if the client had a window before.
pub check_replies_records :
    (xid xid_rep : ℕ) (r : ReplyT) (rs : List ReplyT)
    → (check_replies xid xid_rep (r ∷ rs)).1 ≡ new
    → Known xid (check_replies xid xid_rep (r ∷ rs)).0
unfolding check_replies
check_replies_records xid xid_rep r rs e =
    elim (Bool-cases (ltb xid (find_min xid r.xid (r ∷ rs)))) [
      | inl old ↦ absurd (forgotten_ne (rw (old, check_replies) at e))
      | inr recent ↦
          let kept : List ReplyT = clean xid_rep (r ∷ rs) in
          let s : scan xid new kept ≡ new =
            sym (remember-state xid kept _) ∙ rw (recent, check_replies) at e in
          rw (recent, check_replies, s) (Known-last xid kept (pending xid) refl)
    ]

-- At most once: if a request of a client that has a window is taken for new, it is not taken for
-- new again, whatever requests and replies follow, while no request of the client, nor the copy,
-- confirms it.
pub at_most_once :
    (xid xid_rep later_rep : ℕ) (r : ReplyT) (rs : List ReplyT) (es : List Event)
    → (check_replies xid xid_rep (r ∷ rs)).1 ≡ new
    → All (Unconfirmed xid) es
    → later_rep ≤ xid
    → (check_replies xid later_rep (window_run es (check_replies xid xid_rep (r ∷ rs)).0)).1 ≢ new
at_most_once xid xid_rep later_rep r rs es first u le =
    check_replies-Known xid later_rep _ le
      (window_run-Known xid es _ u (check_replies_records xid xid_rep r rs first))
