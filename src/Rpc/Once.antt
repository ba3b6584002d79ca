-- ===== src/Rpc/Once.antt =====
-- The client and the server of rpc/rpc.cc together: a handler runs at most once for a request that
-- the client still waits for.
use simple_distributed_files.Prelude.{
  ℕ, ◌≤◌, ◌<◌, ◌≡◌, ◌≢◌, refl, sym, ap, ◌∙◌, subst, inl, inr, ◌⊎◌, true, List, [], ◌∷◌, ◌++◌, arith,
  Bytes, ltb, ◌==◌, All, Has, Bool-cases, ==_iff,
}
use native.Mathlib.Decide.{dec_lt}
use simple_distributed_files.Rpc.Client.{update_xid_rep}
use simple_distributed_files.Rpc.Window.{
  ReplyT, RpcState, new, inprogress, forgotten, done, check_replies, add_to_replies, remember, scan,
  find_min, clean,
}
use simple_distributed_files.Rpc.AtMostOnce.{
  Known, check_replies-Known, check_replies_records, window_step-Known, request, replied,
  window_step, check_old, check_recent,
}
use simple_distributed_files.Rpc.Compress.{IsXid}
use simple_distributed_files.Rpc.Received.Invariant.{IsWindow, update-IsWindow, update-grows}
use simple_distributed_files.Rpc.Link.{
  Link, Happens, calls, arrives, answers, receives, was_sent, ran, happen, happen_all, link_new,
  times, IsBounded,
}

record IsLink (l : Link) : Type 0 where
  window : IsWindow l.got l.window
  reps : All (λ h. h.1 ≤ l.window.front) l.sent
  begun : l.replies ≢ []
  known : (x : ℕ) → l.window.front < x → Has x l.executed → Known x l.replies
  once : (x : ℕ) → l.window.front < x → times x l.executed ≤ 1

was_sent-All :
    (x rep n : ℕ) (hs : List (ℕ × ℕ)) → was_sent x rep hs ≡ true → All (λ h. h.1 ≤ n) hs → rep ≤ n
was_sent-All x rep n [] e a = cc
was_sent-All x rep n (h ∷ hs) e a = elim (Bool-cases (was_sent x rep hs)) [
  | inl later ↦ was_sent-All x rep n hs later a.1
  | inr here ↦ ground (arith, e, here, a.0)
]

All-grows : (n m : ℕ) (hs : List (ℕ × ℕ)) → n ≤ m → All (λ h. h.1 ≤ n) hs → All (λ h. h.1 ≤ m) hs
All-grows n m [] le a = tt
All-grows n m (h ∷ hs) le a = (omega (arith, a.0, le), All-grows n m hs le a.1)

calls-IsLink : (l : Link) → IsLink l → IsLink (happen calls l)
unfolding happen
calls-IsLink l i = record {
  window = i.window;
  reps = (omega arith, i.reps);
  begun = i.begun;
  known = i.known;
  once = i.once;
}

receives-IsLink : (x : ℕ) (l : Link) → IsXid x → IsLink l → IsLink (happen (receives x) l)
unfolding happen
receives-IsLink x l fits i =
    let le : l.window.front ≤ (update_xid_rep x l.window).front =
      update-grows x l.got l.window fits i.window in
    record {
      window = update-IsWindow x l.got l.window fits i.window;
      reps = All-grows _ _ l.sent le i.reps;
      begun = i.begun;
      known = λ y h. i.known y (omega (arith, le, h));
      once = λ y h. i.once y (omega (arith, le, h));
    }

append_begun : (rs : List ReplyT) (r : ReplyT) → rs ++ r ∷ [] ≢ []
append_begun [] r e = cc
append_begun (q ∷ rs) r e = cc

answers-IsLink : (x : ℕ) (b : Bytes) (l : Link) → IsLink l → IsLink (happen (answers x b) l)
unfolding happen window_step add_to_replies
answers-IsLink x b l i = record {
  window = i.window;
  reps = i.reps;
  begun = append_begun l.replies _;
  known = λ y h k. window_step-Known y (replied x b) l.replies tt (i.known y h k);
  once = i.once;
}

remember_begun :
    (x : ℕ) (r : ReplyT) (rs : List ReplyT) (s : RpcState) → (remember x (r ∷ rs) s).0 ≢ []
remember_begun x r rs new e = cc
remember_begun x r rs inprogress e = cc
remember_begun x r rs forgotten e = cc
remember_begun x r rs (done b) e = cc

kept_begun : (x : ℕ) (kept : List ReplyT) → (remember x kept (scan x new kept)).0 ≢ []
unfolding scan
kept_begun x [] e = cc
kept_begun x (r ∷ rs) e = remember_begun x r rs _ e

check_replies_begun : (x rep : ℕ) (rs : List ReplyT) → rs ≢ [] → (check_replies x rep rs).0 ≢ []
check_replies_begun x rep [] h e = h refl
check_replies_begun x rep (r ∷ rs) h e = elim (Bool-cases (ltb x (find_min x r.xid (r ∷ rs)))) [
  | inl old ↦ ground (arith, e, check_old x rep r rs old)
  | inr recent ↦
      kept_begun x (clean rep (r ∷ rs)) (ap (λ c. c.0) (sym (check_recent x rep r rs recent)) ∙ e)
]

is_new : (s : RpcState) → (s ≡ new) ⊎ (s ≢ new)
is_new new = inl refl
is_new inprogress = inr (λ e. cc)
is_new forgotten = inr (λ e. cc)
is_new (done b) = inr (λ e. cc)

ran_new : (x : ℕ) (s : RpcState) (xs : List ℕ) → s ≡ new → ran x s xs ≡ x ∷ xs
ran_new x s xs e = rw e refl

ran_old : (x : ℕ) (s : RpcState) (xs : List ℕ) → s ≢ new → ran x s xs ≡ xs
ran_old x new xs n = absurd (n refl)
ran_old x inprogress xs n = refl
ran_old x forgotten xs n = refl
ran_old x (done b) xs n = refl

times_none : (x : ℕ) (xs : List ℕ) → ¬ Has x xs → times x xs ≡ 0
times_none x [] n = refl
times_none x (y ∷ ys) n = elim (Bool-cases (x == y)) [
  | inl same ↦ absurd (n (inl ((==_iff x y).0 same)))
  | inr other ↦ rw other (omega (arith, times_none x ys (λ h. n (inr h))))
]

records :
    (x rep : ℕ) (rs : List ReplyT)
    → rs ≢ []
    → (check_replies x rep rs).1 ≡ new
    → Known x (check_replies x rep rs).0
records x rep [] h e = absurd (h refl)
records x rep (r ∷ rs) h e = check_replies_records x rep r rs e

-- A copy of a request `x` arrives that the client sent.
arrived-known :
    (x rep y : ℕ) (l : Link)
    → IsLink l
    → rep ≤ l.window.front
    → l.window.front < y
    → Has y (ran x (check_replies x rep l.replies).1 l.executed)
    → Known y (check_replies x rep l.replies).0
unfolding window_step
arrived-known x rep y l i le h k = elim (is_new (check_replies x rep l.replies).1) [
  | inl e ↦ elim (subst (Has y) (ran_new x _ l.executed e) k) [
    | inl same ↦
        subst (λ z. Known z (check_replies x rep l.replies).0) (sym same)
          (records x rep l.replies i.begun e)
    | inr before ↦
        window_step-Known y (request x rep) l.replies (omega (arith, le, h)) (i.known y h before)
  ]
  | inr n ↦
      window_step-Known y (request x rep) l.replies (omega (arith, le, h))
        (i.known y h (subst (Has y) (ran_old x _ l.executed n) k))
]

arrived-once :
    (x rep y : ℕ) (l : Link)
    → IsLink l
    → rep ≤ l.window.front
    → l.window.front < y
    → times y (ran x (check_replies x rep l.replies).1 l.executed) ≤ 1
arrived-once x rep y l i le h = elim (is_new (check_replies x rep l.replies).1) [
  | inr n ↦ rw (ran_old x _ l.executed n) (i.once y h)
  | inl e ↦ elim (Bool-cases (y == x)) [
    | inr other ↦ rw (ran_new x _ l.executed e, other) (omega (arith, i.once y h))
    | inl same ↦
        let q : y ≡ x = (==_iff y x).0 same in
        rw (ran_new x _ l.executed e, same)
          (omega (
            arith,
            times_none y l.executed (λ b.
                check_replies-Known x rep l.replies (omega (arith, le, h, q))
                  (subst (λ z. Known z l.replies) q (i.known y h b)) e),
          ))
  ]
]

arrives-IsLink : (x rep : ℕ) (l : Link) → IsLink l → IsLink (happen (arrives x rep) l)
unfolding happen
arrives-IsLink x rep l i = elim (Bool-cases (was_sent x rep l.sent)) [
  | inr lost ↦ rw (lost, happen) i
  | inl there ↦
      let le : rep ≤ l.window.front = was_sent-All x rep _ l.sent there i.reps in
      rw (there, happen)
        record {
          window = i.window;
          reps = i.reps;
          begun = check_replies_begun x rep l.replies i.begun;
          known = λ y h k. arrived-known x rep y l i le h k;
          once = λ y h. arrived-once x rep y l i le h;
        }
]

happen-IsLink : (e : Happens) (l : Link) → IsBounded e → IsLink l → IsLink (happen e l)
happen-IsLink calls l b i = calls-IsLink l i
happen-IsLink (arrives x rep) l b i = arrives-IsLink x rep l i
happen-IsLink (answers x r) l b i = answers-IsLink x r l i
happen-IsLink (receives x) l b i = receives-IsLink x l b i

happen_all-IsLink :
    (es : List Happens) (l : Link) → All IsBounded es → IsLink l → IsLink (happen_all es l)
unfolding happen_all
happen_all-IsLink [] l b i = i
happen_all-IsLink (e ∷ es) l b i = happen_all-IsLink es (happen e l) b.1 (happen-IsLink e l b.0 i)

link_new-IsLink : IsLink link_new
link_new-IsLink = record {
  window = record {
    ascending = tt;
    gap = tt;
    below = λ j h k. inl (omega (arith, h, k));
    kept = λ j h. elim h [ inl e ↦ inl (omega (arith, e)) | inr n ↦ absurd n ];
    from = λ j h. absurd h;
    fits = omega arith;
    xids = tt;
  };
  reps = (omega arith, tt);
  begun = λ e. cc;
  known = λ x h k. elim k [ inl e ↦ inr (inl (sym e)) | inr n ↦ absurd n ];
  once = λ x h. ground (arith, h);
}

-- While the numbers of the replies that are taken in stay below 2 ^ 32 - 1: end to end, over a
-- network that copies, reorders, delays and loses messages, whatever the client sends, the server
-- answers and the client takes in once it has bound: the server runs the handler of a request at
-- most once, as long as its number is greater than 0 and the client has not taken in a reply to it,
-- nor given it up.
pub executed_once :
    (es : List Happens) (x : ℕ)
    → All IsBounded es
    → 0 < x
    → ¬ Has x (happen_all es link_new).got
    → times x (happen_all es link_new).executed ≤ 1
executed_once es x b pos n =
    let i = happen_all-IsLink es link_new b link_new-IsLink in
    elim (dec_lt (happen_all es link_new).window.front x) [
      | yes above ↦ i.once x above
      | no under ↦ absurd (n (i.window.below x pos (omega (arith, under))))
    ]
