-- ===== src/Paxos/Restart.antt =====
-- An acceptor that is started again over its log file has the state that it lost.
use simple_distributed_files.Prelude.{
  ℕ, suc, ◌≤◌, ◌≡◌, refl, sym, ap, subst, ◌∙◌, ◌⊎◌, inl, inr, Bool, true, false, List, [], ◌∷◌,
  append-nil, length-append, some, arith, Bytes, length, All, some_inj, then_some,
}
use simple_distributed_files.Text.Stream.{open_text}
use simple_distributed_files.Paxos.Acceptor.{
  Acceptor, preparereq, acceptreq, decidereq, commit, commit_wo, instance_text, prop_text,
  accept_text, loginstance,
}
use simple_distributed_files.Paxos.Log.{logread, read_records, blank, acceptor_new, first_instance}
use simple_distributed_files.Paxos.Calls.{
  Call, prepare, accept, decide, commits, apply_call, run_calls,
}
use simple_distributed_files.Paxos.Recovery.{
  Record, done, propseen, accepted, record_text, render, play, plays, NoNewline, IsOk,
  read_records-render,
}
use simple_distributed_files.Paxos.Logged.{SameState, IsCallOk, Logged, run_calls-Logged}

length-record_text : (r : Record) → 1 ≤ length (record_text r)
unfolding instance_text prop_text accept_text
length-record_text (done i v) = omega arith
length-record_text (propseen p) = omega arith
length-record_text (accepted p v) = omega arith

length-render : (rs : List Record) → length rs ≤ length (render rs)
unfolding render
length-render [] = omega arith
length-render (r ∷ rs) =
    omega (arith, length-append (record_text r) (render rs), length-record_text r, length-render rs)

plays-file :
    (rs : List Record) (a : Acceptor) (t : Bytes)
    → plays rs (record a { file = t }) ≡ record (plays rs a) { file = t }
unfolding plays
plays-file [] a t = refl
plays-file (done i v ∷ rs) a t = plays-file rs (play (done i v) a) t
plays-file (propseen p ∷ rs) a t = plays-file rs (play (propseen p) a) t
plays-file (accepted p v ∷ rs) a t = plays-file rs (play (accepted p v) a) t

pub logread-render :
    (g : ℕ) (a : Acceptor) (rs : List Record)
    → All IsOk rs
    → a.file ≡ render rs
    → logread g a ≡ some (plays rs a)
unfolding logread
logread-render g a rs ok e =
    ap (λ t. read_records (suc (length t)) a [] g (open_text t)) e
    ∙ read_records-render (suc (length (render rs))) a [] g rs ok (omega (arith, length-render rs))

apply_call_grows :
    (c : Call) (a b : Acceptor) → apply_call c a ≡ some b → a.instance_h ≤ b.instance_h
unfolding apply_call preparereq acceptreq commit decidereq commit_wo
apply_call_grows (prepare arg r) a b e = ground arith
apply_call_grows (accept arg) a b e = ground arith
apply_call_grows (decide arg) a b e = ground arith
apply_call_grows (commits i v) a b e = ground arith

pub run_calls_grows :
    (cs : List Call) (a b : Acceptor) → run_calls cs a ≡ some b → a.instance_h ≤ b.instance_h
unfolding run_calls
run_calls_grows [] a b e = ground (arith, some_inj e)
run_calls_grows (c ∷ cs) a b e =
    let (x, h, rest) = then_some (apply_call c a) (run_calls cs) e in
    omega (arith, apply_call_grows c a x h, run_calls_grows cs x b rest)

-- A fresh acceptor has logged what it knows.
acceptor_new-empty :
    (cfg first : Bool) (me value : Bytes) (g : ℕ)
    → acceptor_new cfg first me value [] g ≡ some (first_instance first value (blank cfg me []))
unfolding acceptor_new render plays
acceptor_new-empty cfg first me value g =
    rw (logread-render g (blank cfg me []) [] tt refl, acceptor_new)

first_instance-Logged :
    (cfg first : Bool) (me value : Bytes)
    → NoNewline value
    → Logged (blank cfg me []) (first_instance first value (blank cfg me []))
unfolding loginstance render plays
first_instance-Logged cfg false me value ok = record {
  records = [];
  all_ok = tt;
  text = refl;
  same = record { values = refl; instance_h = refl; v_a = refl; n_h = inl refl; n_a = inl refl };
}
first_instance-Logged cfg true me value ok = record {
  records = done 1 value ∷ [];
  all_ok = ((omega arith, ok), tt);
  text = sym (append-nil (instance_text 1 value));
  same = record { values = refl; instance_h = refl; v_a = refl; n_h = inl refl; n_a = inl refl };
}

-- A first node has decided its first view before it serves a call.
first_instance_decided :
    (cfg first : Bool) (me value : Bytes)
    → (first ≡ false) ⊎ ((first_instance first value (blank cfg me [])).instance_h ≡ 1)
first_instance_decided cfg false me value = inl refl
first_instance_decided cfg true me value = inr refl

first_instance_skip :
    (first : Bool) (value : Bytes) (a : Acceptor)
    → (first ≡ false) ⊎ (1 ≤ a.instance_h)
    → first_instance first value a ≡ a
first_instance_skip first value a h = ground arith

SameState-file : (a b : Acceptor) (t : Bytes) → SameState a b → SameState a (record b { file = t })
SameState-file a b t s = record {
  values = s.values;
  instance_h = s.instance_h;
  v_a = s.v_a;
  n_h = s.n_h;
  n_a = s.n_a;
}

decided-SameState :
    (first : Bool) (a b : Acceptor)
    → SameState a b
    → (first ≡ false) ⊎ (1 ≤ a.instance_h)
    → (first ≡ false) ⊎ (1 ≤ b.instance_h)
decided-SameState first a b s (inl e) = inl e
decided-SameState first a b s (inr k) = inr (subst (λ n. 1 ≤ n) s.instance_h k)

decided-grows :
    (first : Bool) (x a b : Acceptor)
    → x ≡ a
    → a.instance_h ≤ b.instance_h
    → (first ≡ false) ⊎ (x.instance_h ≡ 1)
    → (first ≡ false) ⊎ (1 ≤ b.instance_h)
decided-grows first x a b e le (inl f) = inl f
decided-grows first x a b e le (inr k) = inr (omega (arith, ap (λ (y : Acceptor). y.instance_h) e))

acceptor_new-Logged :
    (cfg first : Bool) (me value : Bytes) (g : ℕ) (a : Acceptor)
    → Logged (blank cfg me []) a
    → (first ≡ false) ⊎ (1 ≤ a.instance_h)
    → (b : Acceptor) × (acceptor_new cfg first me value a.file g ≡ some b) × SameState a b
unfolding acceptor_new
acceptor_new-Logged cfg first me value g a l h =
    let start : Acceptor = blank cfg me a.file in
    let b : Acceptor = plays l.records start in
    let moved : b ≡ record (plays l.records (blank cfg me [])) { file = a.file } =
      plays-file l.records (blank cfg me []) a.file in
    let same : SameState a b = subst (SameState a) (sym moved) (SameState-file a _ a.file l.same) in
    (
      b,
      rw (logread-render g start l.records l.all_ok l.text, acceptor_new)
          (ap some (first_instance_skip first value b (decided-SameState first a b same h))),
      same,
    )

-- An acceptor that began on an empty log, served any calls and then lost its memory gets its
-- decided values, its promise and what it accepted back from the log file. Numbers are below
-- 2 ^ 32, names are words and values have no newline. Of a proposal numbered zero the log may
-- not keep the name.
pub restart_recovers :
    (cfg first : Bool) (me value : Bytes) (g g' : ℕ) (cs : List Call) (a₀ a : Acceptor)
    → NoNewline value
    → All IsCallOk cs
    → acceptor_new cfg first me value [] g ≡ some a₀
    → run_calls cs a₀ ≡ some a
    → (b : Acceptor) × (acceptor_new cfg first me value a.file g' ≡ some b) × SameState a b
restart_recovers cfg first me value g g' cs a₀ a okv okc new run =
    let start : Acceptor = blank cfg me [] in
    let e : first_instance first value start ≡ a₀ =
      some_inj (sym (acceptor_new-empty cfg first me value g) ∙ new) in
    let l : Logged start a₀ =
      subst (Logged start) e (first_instance-Logged cfg first me value okv) in
    acceptor_new-Logged cfg first me value g' a (run_calls-Logged start a₀ a cs l okc run) (
      decided-grows first (first_instance first value start) a₀ a e (run_calls_grows cs a₀ a run)
        (first_instance_decided cfg first me value))
