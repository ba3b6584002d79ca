-- ===== src/Paxos/Logged.antt =====
-- Every call keeps the log file in step with the state: playing its records gives the state.
use simple_distributed_files.Prelude.{
  ℕ, ◌+◌, ◌%◌, ◌<◌, ◌≡◌, refl, sym, ap, subst, ◌∙◌, ◌⊎◌, inl, inr, List, [], ◌∷◌, ◌++◌,
  append_assoc, append-nil, some, Bytes, ltb, leb, ◌==◌, str_eq, str_eq→eq, All, All-append,
  Bool-cases, some_inj, then_some, none_ne_some,
}
use simple_distributed_files.Paxos.Proposal.{PropT, gt, ge}
use simple_distributed_files.Paxos.Acceptor.{
  Acceptor, Preparearg, Prepareres, Acceptarg, Decidearg, u32_mod, update, preparereq, acceptreq,
  decidereq, commit, commit_wo,
}
use simple_distributed_files.Paxos.Calls.{
  Call, prepare, accept, decide, commits, apply_call, run_calls,
}
use simple_distributed_files.Paxos.Recovery.{
  Record, done, propseen, accepted, record_text, render, play, plays, NoNewline, IsPropOk, IsOk,
}

-- The log does not keep the node name of a proposal numbered zero.
abbrev pub SameProp : PropT → PropT → Type 0
SameProp p q = (p ≡ q) ⊎ ((p.n ≡ 0) × (q.n ≡ 0))

-- `b` has the durable state of `a`.
pub record SameState (a b : Acceptor) : Type 0 where
  pub values : a.values ≡ b.values
  pub instance_h : a.instance_h ≡ b.instance_h
  pub v_a : a.v_a ≡ b.v_a
  pub n_h : SameProp a.n_h b.n_h
  pub n_a : SameProp a.n_a b.n_a

abbrev pub IsCallOk : Call → Type 0
IsCallOk (prepare arg r) = IsPropOk arg.n
IsCallOk (accept arg) = IsPropOk arg.n × NoNewline arg.v
IsCallOk (decide arg) = (arg.instance_no < u32_mod) × NoNewline arg.v
IsCallOk (commits i v) = (i < u32_mod) × NoNewline v

-- The file holds records, and playing them from `start` gives the state.
pub record Logged (start a : Acceptor) : Type 0 where
  pub records : List Record
  pub all_ok : All IsOk records
  pub text : a.file ≡ render records
  pub same : SameState a (plays records start)

pub render-snoc :
    (rs : List Record) (r : Record) → render (rs ++ r ∷ []) ≡ render rs ++ record_text r
unfolding render
render-snoc [] r = append-nil (record_text r)
render-snoc (x ∷ rs) r =
    ap (◌++◌ (record_text x)) (render-snoc rs r)
    ∙ sym (append_assoc (record_text x) (render rs) (record_text r))

plays-snoc :
    (rs : List Record) (r : Record) (a : Acceptor) → plays (rs ++ r ∷ []) a ≡ play r (plays rs a)
unfolding plays
plays-snoc [] r a = refl
plays-snoc (x ∷ rs) r a = plays-snoc rs r (play x a)

-- One record more.
Logged-append :
    (start a b : Acceptor) (r : Record)
    → Logged start a
    → IsOk r
    → b.file ≡ a.file ++ record_text r
    → ((y : Acceptor) → SameState a y → SameState b (play r y))
    → Logged start b
Logged-append start a b r l ok e keep = record {
  records = l.records ++ r ∷ [];
  all_ok = All-append IsOk l.records (r ∷ []) l.all_ok (ok, tt);
  text = e ∙ ap (λ t. t ++ record_text r) l.text ∙ sym (render-snoc l.records r);
  same = rw (plays-snoc l.records r start) (keep (plays l.records start) l.same);
}

module _ (start a : Acceptor) (l : Logged start a) where
  preparereq-Logged :
      (arg : Preparearg) (r : Prepareres) → IsPropOk arg.n → Logged start (preparereq a arg r).0
  unfolding preparereq
  preparereq-Logged arg r ok = elim (Bool-cases (leb arg.instance_no a.instance_h)) [
    | inl old ↦ rw (old, preparereq) l
    | inr new ↦ elim (Bool-cases (gt arg.n a.n_h)) [
      | inl higher ↦
          rw (new, higher, preparereq)
            (Logged-append start a _ (propseen arg.n) l ok refl λ y s. record {
              values = s.values;
              instance_h = s.instance_h;
              v_a = s.v_a;
              n_h = inl refl;
              n_a = s.n_a;
            })
      | inr lower ↦ rw (new, lower, preparereq) l
    ]
  ]

  acceptreq-Logged :
      (arg : Acceptarg) → IsPropOk arg.n × NoNewline arg.v → Logged start (acceptreq a arg).0
  unfolding acceptreq
  acceptreq-Logged arg ok = elim (Bool-cases (ge arg.n a.n_h)) [
    | inl higher ↦
        rw (higher, acceptreq)
          (Logged-append start a _ (accepted arg.n arg.v) l ok refl λ y s. record {
            values = s.values;
            instance_h = s.instance_h;
            v_a = refl;
            n_h = s.n_h;
            n_a = inl refl;
          })
    | inr lower ↦ rw (lower, acceptreq) l
  ]

  commit_wo-Logged :
      (i : ℕ) (v : Bytes) → (i < u32_mod) × NoNewline v → Logged start (commit_wo i v a)
  unfolding commit_wo
  commit_wo-Logged i v ok = elim (Bool-cases (ltb a.instance_h i)) [
    | inl more ↦
        rw (more, commit_wo)
          (Logged-append start a _ (done i v) l ok refl λ y s. record {
            values = ap (λ f. update f i v) s.values;
            instance_h = refl;
            v_a = refl;
            n_h = inr (refl, refl);
            n_a = inr (refl, refl);
          })
    | inr same ↦ rw (same, commit_wo) l
  ]

  decidereq-Logged :
      (arg : Decidearg) (b : Acceptor)
      → (arg.instance_no < u32_mod) × NoNewline arg.v
      → decidereq a arg ≡ some b
      → Logged start b
  unfolding decidereq
  decidereq-Logged arg b ok e =
      elim (Bool-cases (arg.instance_no == (a.instance_h + 1) % u32_mod)) [
        | inl next ↦ elim (Bool-cases (str_eq a.v_a arg.v)) [
          | inl same ↦ subst (Logged start) (some_inj (rw (next, same, decidereq) at e)) (
              commit_wo-Logged arg.instance_no a.v_a
                (ok.0, subst NoNewline (sym (str_eq→eq a.v_a arg.v same)) ok.1))
          | inr other ↦ absurd (none_ne_some (rw (next, other, decidereq) at e))
        ]
        | inr far ↦ elim (Bool-cases (leb arg.instance_no a.instance_h)) [
          | inl old ↦ subst (Logged start) (some_inj (rw (far, old, decidereq) at e)) l
          | inr ahead ↦ absurd (none_ne_some (rw (far, ahead, decidereq) at e))
        ]
      ]

apply_call-Logged :
    (start a b : Acceptor) (c : Call)
    → Logged start a
    → IsCallOk c
    → apply_call c a ≡ some b
    → Logged start b
unfolding apply_call commit
apply_call-Logged start a b (prepare arg r) l ok e =
    subst (Logged start) (some_inj e) (preparereq-Logged start a l arg r ok)
apply_call-Logged start a b (accept arg) l ok e =
    subst (Logged start) (some_inj e) (acceptreq-Logged start a l arg ok)
apply_call-Logged start a b (decide arg) l ok e = decidereq-Logged start a l arg b ok e
apply_call-Logged start a b (commits i v) l ok e =
    subst (Logged start) (some_inj e) (commit_wo-Logged start a l i v ok)

pub run_calls-Logged :
    (start a b : Acceptor) (cs : List Call)
    → Logged start a
    → All IsCallOk cs
    → run_calls cs a ≡ some b
    → Logged start b
unfolding run_calls
run_calls-Logged start a b [] l ok e = subst (Logged start) (some_inj e) l
run_calls-Logged start a b (c ∷ cs) l ok e =
    let (x, h, rest) = then_some (apply_call c a) (run_calls cs) e in
    run_calls-Logged start x b cs (apply_call-Logged start a x c l ok.0 h) ok.1 rest
