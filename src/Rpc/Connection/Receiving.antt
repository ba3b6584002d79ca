-- ===== src/Rpc/Connection/Receiving.antt =====
-- What a call of `read_cb` of rpc/connection.cc leaves of the stream, step by step.
use simple_distributed_files.Prelude.{
  ℕ, suc, ◌-◌, ◌≤◌, ◌≡◌, refl, sym, ap, ◌∙◌, subst, ◌⊎◌, inl, inr, Bool, true, false, List, ◌∷◌,
  ◌++◌, append_assoc, Option, none, some, arith, Bytes, ◌==◌, if◌then◌else◌, length, length-append,
  All, Bool-cases, ==_iff, not, ◌&&◌, ◌||◌,
}
use simple_distributed_files.Rpc.Connection.{
  Read, got, ended, failed, Charbuf, charbuf_new, Connection, ntohl, size_passes, read_size,
  read_rest, then_rest, readpdu, offer, read_done, read_cb, has_buf, some_left,
}
use simple_distributed_files.Rpc.Connection.Framing.{
  Gives, GivesSize, size_left, took, asked_of, rest_asked, IsFrame,
}
use simple_distributed_files.Rpc.Connection.Reading.{
  joined, same_cut, Amid, Reading, size_read_at, suc_not_zero,
}

module _ (pending : List Bytes) (rest : Bytes) where
  size_read :
      (bs after : Bytes)
      → All IsFrame pending
      → joined pending ≡ bs ++ (after ++ rest)
      → length bs ≡ 4
      → Amid (record { buf = some bs; sz = ntohl bs; solong = some 4 }) pending (after ++ rest)
  size_read bs after = size_read_at bs (after ++ rest) pending

  abbrev RestRead : Bytes → Bool × Charbuf → Type 0
  RestRead w (ok, p) = if ok then Amid p pending (w ++ rest) else p ≡ charbuf_new

  read_rest_lem :
      (p : Charbuf) (before after : Bytes) (r : Read)
      → Amid p pending (before ++ rest)
      → Gives (size_left p) before r after
      → RestRead after (read_rest r p)
  unfolding read_rest
  read_rest_lem p before after (got bs) a g =
      let left : length bs ≤ length a.p - length a.b =
        subst (λ q. length bs ≤ size_left q) a.r_is g.2 in
      record {
        b = a.b ++ bs;
        p = a.p;
        ps = a.ps;
        r_is =
            ap (λ q. (read_rest (got bs) q).1) a.r_is
            ∙ ap (λ k. record { buf = some (a.b ++ bs); sz = length a.p; solong = some k })
                (sym (length-append a.b bs));
        pending_is = a.pending_is;
        header = omega (arith, a.header, length-append a.b bs);
        fits = omega (arith, left, a.fits, length-append a.b bs);
        long = a.long;
        stream =
            a.stream
            ∙ ap (λ x. a.b ++ (x ++ rest)) g.0
            ∙ ap (λ x. a.b ++ x) (append_assoc bs after rest)
            ∙ sym (append_assoc a.b bs (after ++ rest));
      }
  read_rest_lem p before after (ended true) a g = subst (λ w. Amid p pending (w ++ rest)) g a
  read_rest_lem p before after (ended false) a g = refl
  read_rest_lem p before after (failed true) a g = subst (λ w. Amid p pending (w ++ rest)) g a
  read_rest_lem p before after (failed false) a g = refl

  abbrev PduRead : Bytes → Option (Bool × Charbuf) → Type 0
  PduRead w none = Unit
  PduRead w (some q) = RestRead w q

  read_size_lem :
      (before mid after : Bytes) (first second : Read)
      → All IsFrame pending
      → joined pending ≡ before ++ rest
      → Gives 4 before first mid
      → Gives (asked_of first) mid second after
      → PduRead after (then_rest second (read_size first charbuf_new))
  unfolding read_size
  read_size_lem before mid after (got bs) second frames e g h =
      let amid = size_read bs mid frames (e ∙ ap (λ x. x ++ rest) g.0 ∙ append_assoc bs mid rest) in
      elim (Bool-cases (length bs == 4)) [
        | inl four ↦ elim (Bool-cases (size_passes (ntohl bs))) [
          | inl small ↦
              rw (four, small)
                (read_rest_lem _ mid after second
                  (amid (omega (arith, (==_iff (length bs) 4).0 four))) h)
          | inr big ↦ rw (four, big) refl
        ]
        | inr other ↦ rw other refl
      ]
  read_size_lem before mid after (ended again) second frames e g h = refl
  read_size_lem before mid after (failed true) second frames e g h = tt
  read_size_lem before mid after (failed false) second frames e g h = refl

  readpdu_more :
      (n : ℕ) (p : Charbuf) (before mid after : Bytes) (first second : Read)
      → p.sz ≡ suc n
      → Amid p pending (before ++ rest)
      → GivesSize p before first mid
      → Gives (rest_asked first p) mid second after
      → PduRead after (readpdu first second p)
  unfolding readpdu
  readpdu_more n p before mid after first second e =
      subst
        (λ k.
          Amid (record p { sz = k }) pending (before ++ rest)
          → GivesSize (record p { sz = k }) before first mid
          → Gives (rest_asked first (record p { sz = k })) mid second after
          → PduRead after (readpdu first second (record p { sz = k })))
        (sym e)
        (λ a g h. rw (suc_not_zero n) (
          read_rest_lem (record p { sz = suc n }) mid after second
            (subst (λ w. Amid (record p { sz = suc n }) pending (w ++ rest)) g a) h))

  -- `readpdu` keeps the stream whole, or leaves nothing behind.
  pub readpdu_lem :
      (p : Charbuf) (before mid after : Bytes) (first second : Read)
      → All IsFrame pending
      → Reading p pending (before ++ rest)
      → GivesSize p before first mid
      → Gives (rest_asked first p) mid second after
      → PduRead after (readpdu first second p)
  unfolding readpdu
  readpdu_lem p before mid after first second frames (inl (e, whole)) g h =
      subst
        (λ q.
          GivesSize q before first mid
          → Gives (rest_asked first q) mid second after
          → PduRead after (readpdu first second q))
        (sym e) (read_size_lem before mid after first second frames whole) g h
  readpdu_lem p before mid after first second frames (inr a) g h =
      let e : p.sz ≡ suc (p.sz - 1) = omega (arith, ap (λ q. q.sz) a.r_is, a.long) in
      readpdu_more (p.sz - 1) p before mid after first second e a g h

-- What is left once a PDU was offered.
abbrev pub Offered : List Bytes → Bytes → Connection × Option Bytes → Type 0
Offered pending tail (c, out) =
    (left : List Bytes) × (pending ≡ took out ++ left)
    × ((c.dead ≡ true) ⊎ Reading c.rpdu left tail)

offer_part :
    (taken : Bool) (c : Connection) (b p : Bytes) (pending ps : List Bytes) (tail : Bytes)
    → Amid (record { buf = some b; sz = length p; solong = some (length b) }) pending tail
    → pending ≡ p ∷ ps
    → p ++ joined ps ≡ b ++ tail
    → Offered pending tail (
        offer taken
          (record c { rpdu = record { buf = some b; sz = length p; solong = some (length b) } }))
unfolding offer
offer_part taken c b p pending ps tail a e whole =
    elim (Bool-cases (length b == length p && taken)) [
      | inl full ↦
          let same : length b ≡ length p =
            (==_iff (length b) (length p)).0 (ground (arith, full)) in
          let cut = same_cut p b (joined ps) tail (sym same) whole in
          rw full (ps, (e ∙ ap (λ x. x ∷ ps) cut.0), inr (inl (refl, cut.1)))
      | inr part ↦ rw part (pending, refl, inr (inr a))
    ]

-- A PDU that is handed on is the next one, whole and unchanged.
pub offer_lem :
    (taken : Bool) (c : Connection) (pending : List Bytes) (tail : Bytes)
    → Reading c.rpdu pending tail
    → Offered pending tail (offer taken c)
unfolding offer
offer_lem taken c pending tail (inl (e, whole)) =
    subst (λ q. Offered pending tail (offer taken (record c { rpdu = q }))) (sym e)
      (pending, refl, inr (inl (refl, whole)))
offer_lem taken c pending tail (inr a) =
    subst (λ q. Offered pending tail (offer taken (record c { rpdu = q }))) (sym a.r_is)
      (offer_part taken c a.b a.p pending a.ps tail (subst (λ q. Amid q pending tail) a.r_is a)
        a.pending_is a.stream)

-- What a call of `read_cb` leaves.
abbrev pub ReadBack : List Bytes → Bytes → Option (Connection × Option Bytes) → Type 0
ReadBack pending tail none = Unit
ReadBack pending tail (some q) = Offered pending tail q

read_done_lem :
    (pending : List Bytes) (rest after : Bytes) (taken : Bool) (c : Connection)
    (o : Option (Bool × Charbuf))
    → PduRead pending rest after o
    → ReadBack pending (after ++ rest) (read_done taken c o)
unfolding offer
read_done_lem pending rest after taken c none h = tt
read_done_lem pending rest after taken c (some (true, p)) h =
    offer_lem taken (record c { rpdu = p; dead = false }) pending (after ++ rest) (inr h)
read_done_lem pending rest after taken c (some (false, p)) h =
    subst (λ q. Offered pending (after ++ rest) (offer taken (record c { rpdu = q; dead = true })))
      (sym h) (pending, refl, inl refl)

-- With nothing left to read, nothing is read.
nothing_left :
    (n : ℕ) (p : Charbuf) (before mid after : Bytes) (first second : Read)
    → p.sz ≡ suc n
    → size_left p ≡ 0
    → GivesSize p before first mid
    → Gives (rest_asked first p) mid second after
    → before ≡ after
nothing_left n p before mid after first second e =
    subst
      (λ k.
        size_left (record p { sz = k }) ≡ 0
        → GivesSize (record p { sz = k }) before first mid
        → Gives (rest_asked first (record p { sz = k })) mid second after
        → before ≡ after)
      (sym e) (stays second)
  where
    stays :
        (r : Read)
        → size_left (record p { sz = suc n }) ≡ 0
        → before ≡ mid
        → Gives (size_left (record p { sz = suc n })) mid r after
        → before ≡ after
    stays (got bs) z g h = absurd (omega (arith, z, h.1, h.2))
    stays (ended again) z g h = g ∙ h
    stays (failed again) z g h = g ∙ h

full_stays :
    (p : Charbuf) (pending : List Bytes) (tail before mid after : Bytes) (first second : Read)
    → (not (has_buf p) || some_left p) ≡ false
    → Reading p pending tail
    → GivesSize p before first mid
    → Gives (rest_asked first p) mid second after
    → before ≡ after
full_stays p pending tail before mid after first second full (inl (e, whole)) =
    absurd (cc (full, ap (λ q. not (has_buf q) || some_left q) e))
full_stays p pending tail before mid after first second full (inr a) =
    nothing_left (p.sz - 1) p before mid after first second
      (omega (arith, ap (λ q. q.sz) a.r_is, a.long))
      (ap size_left a.r_is
        ∙ (ground (arith, sym (ap (λ q. not (has_buf q) || some_left q) a.r_is) ∙ full)))

read_cb_at :
    (pending : List Bytes) (rest before mid after : Bytes) (first second : Read) (taken d : Bool)
    (c : Connection)
    → All IsFrame pending
    → (d ≡ true) ⊎ Reading c.rpdu pending (before ++ rest)
    → GivesSize c.rpdu before first mid
    → Gives (rest_asked first c.rpdu) mid second after
    → ReadBack pending (after ++ rest) (read_cb first second taken (record c { dead = d }))
unfolding read_cb
read_cb_at pending rest before mid after first second taken true c frames i g h =
    (pending, refl, inl refl)
read_cb_at pending rest before mid after first second taken false c frames (inl e) g h =
    absurd (cc e)
read_cb_at pending rest before mid after first second taken false c frames (inr i) g h =
    elim (Bool-cases (not (has_buf c.rpdu) || some_left c.rpdu)) [
      | inl e ↦ rw e (
          read_done_lem pending rest after taken (record c { dead = false })
            (readpdu first second c.rpdu)
            (readpdu_lem pending rest c.rpdu before mid after first second frames i g h))
      | inr e ↦ rw e (
          offer_lem taken (record c { dead = false }) pending (after ++ rest)
            (subst (λ w. Reading c.rpdu pending (w ++ rest))
              (full_stays c.rpdu pending _ before mid after first second e i g h) i))
    ]

-- A call of `read_cb` hands on at most the next PDU, and keeps the rest of the stream.
pub read_cb_lem :
    (pending : List Bytes) (rest before mid after : Bytes) (first second : Read) (taken : Bool)
    (c : Connection)
    → All IsFrame pending
    → (c.dead ≡ true) ⊎ Reading c.rpdu pending (before ++ rest)
    → GivesSize c.rpdu before first mid
    → Gives (rest_asked first c.rpdu) mid second after
    → ReadBack pending (after ++ rest) (read_cb first second taken c)
read_cb_lem pending rest before mid after first second taken c =
    read_cb_at pending rest before mid after first second taken c.dead c
