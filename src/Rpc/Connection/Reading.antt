-- ===== src/Rpc/Connection/Reading.antt =====
-- What the reader of rpc/connection.cc keeps: the bytes of its buffer and those still to come are
-- the PDUs that it has not handed on.
use simple_distributed_files.Prelude.{
  ℕ, suc, ◌≤◌, ◌<◌, ◌≡◌, refl, sym, ap, ap₂, ◌∙◌, ◌⊎◌, inl, inr, false, List, [], ◌∷◌, ◌++◌,
  append_assoc, append-nil, some, arith, Bytes, ◌==◌, length, drop, length-append, All,
}
use simple_distributed_files.Rpc.RoundTrip.{uint_bytes}
use simple_distributed_files.Rpc.Connection.{Charbuf, charbuf_new, stamp, ntohl}
use simple_distributed_files.Rpc.Connection.Framing.{IsFrame}

abbrev pub joined : List Bytes → Bytes
joined [] = []
joined (b ∷ bs) = b ++ joined bs

pub joined-append : (bs cs : List Bytes) → joined (bs ++ cs) ≡ joined bs ++ joined cs
joined-append [] cs = refl
joined-append (b ∷ bs) cs = ap (λ x. b ++ x) (joined-append bs cs) ∙ sym (append_assoc b _ _)

-- Two ways to cut one list at one length.
pub same_cut :
    (xs us ys vs : Bytes) → length xs ≡ length us → xs ++ ys ≡ us ++ vs → (xs ≡ us) × (ys ≡ vs)
same_cut [] [] ys vs h e = (refl, e)
same_cut [] (u ∷ us) ys vs h e = absurd (omega (arith, h))
same_cut (x ∷ xs) [] ys vs h e = absurd (omega (arith, h))
same_cut (x ∷ xs) (u ∷ us) ys vs h e =
    let rest = same_cut xs us ys vs (omega (arith, h)) (cc e) in (cc (e, rest.0), rest.1)

pub ntohl-uint_bytes : (n : ℕ) → n < 2147483648 → ntohl (uint_bytes n) ≡ n
unfolding ntohl uint_bytes
ntohl-uint_bytes n h = omega arith

pub record Amid (r : Charbuf) (pending : List Bytes) (tail : Bytes) : Type 0 where
  pub b : Bytes
  pub p : Bytes
  pub ps : List Bytes
  pub r_is : r ≡ record { buf = some b; sz = length p; solong = some (length b) }
  pub pending_is : pending ≡ p ∷ ps
  pub header : 4 ≤ length b
  pub fits : length b ≤ length p
  pub long : 4 < length p
  pub stream : p ++ joined ps ≡ b ++ tail

abbrev pub Reading : Charbuf → List Bytes → Bytes → Type 0
Reading r pending tail = (r ≡ charbuf_new) × (joined pending ≡ tail) ⊎ Amid r pending tail

length-uint_bytes : (n : ℕ) → length (uint_bytes n) ≡ 4
unfolding uint_bytes
length-uint_bytes n = refl

-- The first four bytes of a frame.
frame_header : (p s t u : Bytes) → IsFrame p → length s ≡ 4 → p ++ t ≡ s ++ u → ntohl s ≡ length p
unfolding stamp
frame_header p s t u f h e =
    let cut =
      same_cut (uint_bytes (length p)) s (drop 4 p ++ t) u (length-uint_bytes (length p) ∙ sym h) (
        sym (append_assoc (uint_bytes (length p)) (drop 4 p) t) ∙ ap (λ x. x ++ t) f.stamped ∙ e) in
    ap ntohl (sym cut.0) ∙ ntohl-uint_bytes (length p) f.short

-- One more PDU at the end of what is to come.
pub Reading-snoc :
    (r : Charbuf) (pending : List Bytes) (tail f : Bytes)
    → Reading r pending tail
    → Reading r (pending ++ f ∷ []) (tail ++ f)
Reading-snoc r pending tail f (inl (e, whole)) =
    inl (e, joined-append pending (f ∷ []) ∙ ap₂ (λ x y. x ++ y) whole (append-nil f))
Reading-snoc r pending tail f (inr a) = inr record {
  b = a.b;
  p = a.p;
  ps = a.ps ++ f ∷ [];
  r_is = a.r_is;
  pending_is = ap (λ x. x ++ f ∷ []) a.pending_is;
  header = a.header;
  fits = a.fits;
  long = a.long;
  stream =
      ap (λ x. a.p ++ x) (joined-append a.ps (f ∷ []) ∙ ap (λ y. joined a.ps ++ y) (append-nil f))
      ∙ sym (append_assoc a.p (joined a.ps) f)
      ∙ ap (λ x. x ++ f) a.stream
      ∙ append_assoc a.b tail f;
}

pub suc_not_zero : (n : ℕ) → (suc n == 0) ≡ false
suc_not_zero n = ground arith

pub size_read_at :
    (bs tail : Bytes) (pending : List Bytes)
    → All IsFrame pending
    → joined pending ≡ bs ++ tail
    → length bs ≡ 4
    → Amid (record { buf = some bs; sz = ntohl bs; solong = some 4 }) pending tail
size_read_at bs tail [] frames e h = absurd (omega (arith, h, ap length e, length-append bs tail))
size_read_at bs tail (p ∷ ps) frames e h = record {
  b = bs;
  p = p;
  ps = ps;
  r_is =
      ap₂ (λ n m. record { buf = some bs; sz = n; solong = some m })
        (frame_header p bs (joined ps) tail frames.0 h e) (sym h);
  pending_is = refl;
  header = omega (arith, h);
  fits = omega (arith, h, frames.0.long);
  long = frames.0.long;
  stream = e;
}
