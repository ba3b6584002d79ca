-- ===== src/Paxos/Recovery.antt =====
-- What the log file is for: an acceptor that is started again over its file has the state that it
-- lost. The file is a sequence of records, and reading it plays them one by one.
use simple_distributed_files.Prelude.{
  ℕ, zero, suc, ◌<◌, ◌≡◌, refl, ◌∙◌, false, List, [], ◌∷◌, ◌++◌, append_assoc, some, arith, Bytes,
  codes, ◌==◌, str_eq, length, All,
}
use simple_distributed_files.Text.Decimal.{dec, is_digit}
use simple_distributed_files.Text.Stream.{
  Stream, open_text, read_word, read_num, get, getline, IsWord, AtSpace, read_word-append,
  read_word-space, is_space, read_num-space, read_num-dec, getline-append,
}
use simple_distributed_files.Paxos.Proposal.{PropT}
use simple_distributed_files.Paxos.Acceptor.{
  Acceptor, update, u32_mod, instance_text, prop_text, accept_text,
}
use simple_distributed_files.Paxos.Log.{read_record, read_records}

pub data Record : Type 0 where
  done : ℕ → Bytes → Record
  propseen : PropT → Record
  accepted : PropT → Bytes → Record

abbrev pub record_text : Record → Bytes
record_text (done i v) = instance_text i v
record_text (propseen p) = prop_text p
record_text (accepted p v) = accept_text p v

unfoldable pub render : List Record → Bytes
render [] = []
render (r ∷ rs) = record_text r ++ render rs

-- What a record does to the acceptor that reads it.
abbrev pub play : Record → Acceptor → Acceptor
play (done i v) a = record a {
  values = update a.values i v;
  instance_h = i;
  v_a = [];
  n_h = record a.n_h { n = 0 };
  n_a = record a.n_a { n = 0 };
}
play (propseen p) a = record a { n_h = p }
play (accepted p v) a = record a { n_a = p; v_a = v }

unfoldable pub plays : List Record → Acceptor → Acceptor
plays [] a = a
plays (r ∷ rs) a = plays rs (play r a)

abbrev pub NoNewline : Bytes → Type 0
NoNewline = All (λ c. (c == 10) ≡ false)

abbrev pub IsPropOk : PropT → Type 0
IsPropOk p = (p.n < u32_mod) × IsWord p.m

abbrev pub IsOk : Record → Type 0
IsOk (done i v) = (i < u32_mod) × NoNewline v
IsOk (propseen p) = IsPropOk p
IsOk (accepted p v) = IsPropOk p × NoNewline v

num_field :
    (old n : ℕ) (r : Bytes)
    → n < u32_mod
    → read_num u32_mod old (open_text (32 ∷ (dec n ++ (32 ∷ r)))) ≡ (n, open_text (32 ∷ r))
unfolding is_space is_digit
num_field old n r h =
    read_num-space u32_mod old 32 (dec n ++ (32 ∷ r)) refl
    ∙ read_num-dec u32_mod old n (32 ∷ r) h refl

word_field :
    (old w r : Bytes)
    → IsWord w
    → AtSpace r
    → read_word old (open_text (32 ∷ (w ++ r))) ≡ (w, open_text r)
unfolding is_space
word_field old w r h e = read_word-space old (w ++ r) 32 refl ∙ read_word-append old w r h e

get_lem : (r : Bytes) → get (open_text (32 ∷ r)) ≡ open_text r
unfolding get
get_lem r = refl

line_lem :
    (v r : Bytes) → NoNewline v → getline 10 [] (open_text (v ++ (10 ∷ r))) ≡ (v, open_text r)
line_lem v r h = getline-append 10 [] v r h

read_done :
    (a : Acceptor) (j i : ℕ) (v r : Bytes)
    → IsOk (done i v)
    → read_record a (codes "done") j (open_text (32 ∷ (dec i ++ (32 ∷ (v ++ (10 ∷ r))))))
      ≡ some (play (done i v) a, i, open_text r)
unfolding str_eq read_record
read_done a j i v r h =
    rw (num_field j i (v ++ (10 ∷ r)) h.0, get_lem (v ++ (10 ∷ r)), line_lem v r h.1)

read_propseen :
    (a : Acceptor) (j : ℕ) (p : PropT) (r : Bytes)
    → IsOk (propseen p)
    → read_record a (codes "propseen") j (open_text (32 ∷ (dec p.n ++ (32 ∷ (p.m ++ (10 ∷ r))))))
      ≡ some (play (propseen p) a, j, open_text (10 ∷ r))
unfolding str_eq read_record is_space
read_propseen a j p r h =
    rw (num_field a.n_h.n p.n (p.m ++ (10 ∷ r)) h.0, word_field a.n_h.m p.m (10 ∷ r) h.1 refl)

read_accepted :
    (a : Acceptor) (j : ℕ) (p : PropT) (v r : Bytes)
    → IsOk (accepted p v)
    → read_record a
        (codes "accepted")
        j
        (open_text (32 ∷ (dec p.n ++ (32 ∷ (p.m ++ (32 ∷ (v ++ (10 ∷ r))))))))
      ≡ some (play (accepted p v) a, j, open_text r)
unfolding str_eq read_record is_space
read_accepted a j p v r h = rw (
  num_field a.n_a.n p.n (p.m ++ (32 ∷ (v ++ (10 ∷ r)))) h.0.0,
  word_field a.n_a.m p.m (32 ∷ (v ++ (10 ∷ r))) h.0.1 refl,
  get_lem (v ++ (10 ∷ r)),
  line_lem v r h.1,
)

read_records-step :
    (f : ℕ) (a a' : Acceptor) (type w t : Bytes) (j j' : ℕ) (s s' : Stream)
    → read_word type s ≡ (w, open_text t)
    → read_record a w j (open_text t) ≡ some (a', j', s')
    → read_records (suc f) a type j s ≡ read_records f a' w j' s'
unfolding read_records
read_records-step f a a' type w t j j' s s' e h = ground (arith, e, h)

read_records-newline :
    (f : ℕ) (a : Acceptor) (type t : Bytes) (j : ℕ)
    → read_records f a type j (open_text (10 ∷ t)) ≡ read_records f a type j (open_text t)
unfolding read_records is_space read_word
read_records-newline zero a type t j = refl
read_records-newline (suc f) a type t j = refl

-- Each constructor's own step, with the text of its record in front.
read_records-record :
    (f : ℕ) (a : Acceptor) (type t : Bytes) (j : ℕ) (r : Record)
    → IsOk r
    → (w : Bytes) × (k : ℕ) × (read_records (suc f) a type j (open_text (record_text r ++ t))
        ≡ read_records f (play r a) w k (open_text t))
unfolding instance_text prop_text accept_text is_space
read_records-record f a type t j (done i v) h = (
  codes "done",
  i,
  rw (append_assoc (dec i) (32 ∷ (v ++ (10 ∷ []))) t, append_assoc v (10 ∷ []) t)
      (read_records-step f a _ type (codes "done") _ j i _ _
        (read_word-append type (codes "done") _ (ground arith) refl) (read_done a j i v t h)),
)
read_records-record f a type t j (propseen p) h = (
  codes "propseen",
  j,
  rw (append_assoc (dec p.n) (32 ∷ (p.m ++ (10 ∷ []))) t, append_assoc p.m (10 ∷ []) t)
      (read_records-step f a _ type (codes "propseen") _ j j _ _
          (read_word-append type (codes "propseen") _ (ground arith) refl) (read_propseen a j p t h)
        ∙ read_records-newline f _ _ t j),
)
read_records-record f a type t j (accepted p v) h = (
  codes "accepted",
  j,
  rw
      (
        append_assoc (dec p.n) (32 ∷ (p.m ++ (32 ∷ (v ++ (10 ∷ []))))) t,
        append_assoc p.m (32 ∷ (v ++ (10 ∷ []))) t,
        append_assoc v (10 ∷ []) t,
      )
      (read_records-step f a _ type (codes "accepted") _ j j _ _
        (read_word-append type (codes "accepted") _ (ground arith) refl)
        (read_accepted a j p v t h)),
)

read_records_end :
    (f : ℕ) (a : Acceptor) (type : Bytes) (j : ℕ)
    → read_records (suc f) a type j (open_text []) ≡ some a
unfolding read_records read_word
read_records_end f a type j = refl

-- Reading a file of records plays them in order, with more fuel than there are records. Their
-- numbers are below 2 ^ 32, names are words and values have no newline.
pub read_records-render :
    (f : ℕ) (a : Acceptor) (type : Bytes) (j : ℕ) (rs : List Record)
    → All IsOk rs
    → length rs < f
    → read_records f a type j (open_text (render rs)) ≡ some (plays rs a)
unfolding render plays
read_records-render zero a type j rs ok h = elim h [ ]
read_records-render (suc f) a type j [] ok h = read_records_end f a type j
read_records-render (suc f) a type j (r ∷ rs) ok h =
    let (w, k, e) = read_records-record f a type (render rs) j r ok.0 in
    e ∙ read_records-render f (play r a) w k rs ok.1 (omega arith)
