-- ===== src/Rpc/Connection/Writing.antt =====
-- What the writer of rpc/connection.cc keeps: what it has not put out yet is the rest of the frame
-- in its buffer.
use simple_distributed_files.Prelude.{
  ℕ, zero, suc, ◌+◌, ◌-◌, ◌≤◌, ◌<◌, ◌≡◌, refl, sym, ap, ◌∙◌, subst, ◌⊎◌, inl, inr, Bool, true,
  false, [], ◌∷◌, ◌++◌, Option, none, some, arith, Bytes, ◌==◌, if◌then◌else◌, length, take, drop,
  Bool-cases, not,
}
use simple_distributed_files.Rpc.RoundTrip.{uint_bytes}
use simple_distributed_files.Rpc.Connection.{
  Write, wrote, refused, Charbuf, charbuf_new, Connection, stamp, write_rest, writepdu_at, writepdu,
  Sent, started, waits, returns_false, send_started, send_look, send_end, written, write_cb,
  under_way, has_buf, all_done,
}
use simple_distributed_files.Rpc.Connection.Framing.{Takes, size_left, frame, IsFrame}

-- What a writer that is alive has in its hands: nothing, or a frame that is partly written, with
-- the bytes that are to go out yet.
pub data Holds (p : Charbuf) (rest : Bytes) : Type 0 where
  nothing : p ≡ charbuf_new → rest ≡ [] → Holds p rest
  part :
      (b : Bytes) (k : ℕ)
      → p ≡ record { buf = some b; sz = length b; solong = some k }
      → k ≤ length b
      → IsFrame b
      → rest ≡ drop k b
      → Holds p rest

pub drop-all : (b : Bytes) → drop (length b) b ≡ []
drop-all [] = refl
drop-all (x ∷ xs) = drop-all xs

suc_add : (k n : ℕ) → suc k + n ≡ suc (k + n)
suc_add k n = omega arith

drop_nil : (n : ℕ) → drop {A = ℕ} n [] ≡ []
drop_nil zero = refl
drop_nil (suc n) = refl

drop_more : (n k : ℕ) (b : Bytes) → drop (k + n) b ≡ drop n (drop k b)
drop_more n zero b = ap (λ k. drop k b) (omega arith)
drop_more n (suc k) [] = ap (λ j. drop j []) (suc_add k n) ∙ sym (drop_nil n)
drop_more n (suc k) (x ∷ b) = ap (λ j. drop j (x ∷ b)) (suc_add k n) ∙ drop_more n k b

take-drop : (n : ℕ) (b : Bytes) → take n b ++ drop n b ≡ b
take-drop zero b = refl
take-drop (suc n) [] = refl
take-drop (suc n) (x ∷ b) = ap (λ y. x ∷ y) (take-drop n b)

-- After a call of `writepdu`: what went out and what is left are what was there to write.
abbrev pub PduWritten : Bytes → Option (Bool × Charbuf × Bytes) → Type 0
PduWritten rest none = Unit
PduWritten rest (some (ok, p, out)) =
    (left : Bytes) × (rest ≡ out ++ left) × ((not ok ≡ true) ⊎ Holds p left)

stamped_again : (b : Bytes) (k : ℕ) → IsFrame b → (if k == 0 then stamp (length b) b else b) ≡ b
stamped_again b k s = elim (Bool-cases (k == 0)) [ inl e ↦ rw e s.stamped | inr e ↦ rw e refl ]

write_rest_lem :
    (r : Write) (o : Option Bytes) (b : Bytes) (k : ℕ)
    → k ≤ length b
    → IsFrame b
    → Takes (length b - k) r
    → PduWritten
        (drop k b)
        (some (write_rest r (record { buf = o; sz = length b; solong = some k }) b k))
unfolding write_rest
write_rest_lem (wrote n) o b k le s t = (
  drop (k + n) b,
  sym (take-drop n (drop k b)) ∙ ap (λ y. take n (drop k b) ++ y) (sym (drop_more n k b)),
  inr (part b (k + n) refl (omega (arith, le, t)) s refl),
)
write_rest_lem (refused true) o b k le s t = (drop k b, refl, inr (part b k refl le s refl))
write_rest_lem (refused false) o b k le s t = (drop k b, refl, inl refl)

-- One `writepdu` of a frame that is under way.
writepdu_lem :
    (r : Write) (b : Bytes) (k : ℕ)
    → k ≤ length b
    → IsFrame b
    → Takes (length b - k) r
    → PduWritten (drop k b) (writepdu r (record { buf = some b; sz = length b; solong = some k }))
unfolding writepdu writepdu_at
writepdu_lem r b k le f t = elim (Bool-cases (k == length b)) [
  | inl e ↦ rw e (drop k b, refl, inr (part b k refl le f refl))
  | inr e ↦ rw (e, stamped_again b k f) (write_rest_lem r (some b) b k le f t)
]

held_written :
    (r : Write) (p : Charbuf) (rest : Bytes)
    → (p.sz == 0) ≡ false
    → Holds p rest
    → Takes (size_left p) r
    → PduWritten rest (writepdu r p)
held_written r p rest more (nothing e z) t = absurd (ground (arith, more, ap (λ q. q.sz) e))
held_written r p rest more (part b k e le f z) t =
    subst (λ y. PduWritten y (writepdu r p)) (sym z)
      (subst (λ q. PduWritten (drop k b) (writepdu r q)) (sym e)
        (writepdu_lem r b k le f (subst (λ q. Takes (size_left q) r) e t)))

length-drop : (n : ℕ) (b : Bytes) → length (drop n b) ≡ length b - n
length-drop zero b = omega arith
length-drop (suc n) [] = omega arith
length-drop (suc n) (x ∷ b) = omega (arith, length-drop n b)

length-stamp : (b : Bytes) → 4 < length b → length (stamp (length b) b) ≡ length b
unfolding stamp uint_bytes
length-stamp b h = omega (arith, length-drop 4 b, h)

restamp : (n : ℕ) (b : Bytes) → stamp n (stamp n b) ≡ stamp n b
unfolding stamp uint_bytes
restamp n b = refl

pub frame-IsFrame : (b : Bytes) → 4 < length b → length b < 2147483648 → IsFrame (frame b)
frame-IsFrame b long short = record {
  long = omega (arith, length-stamp b long, long);
  short = omega (arith, length-stamp b long, short);
  stamped = ap (λ n. stamp n (frame b)) (length-stamp b long) ∙ restamp (length b) b;
}

-- The first `writepdu` of a new buffer.
writepdu_first :
    (r : Write) (b : Bytes)
    → 4 < length b
    → length b < 2147483648
    → Takes (length b) r
    → PduWritten (frame b) (writepdu r (record { buf = some b; sz = length b; solong = some 0 }))
unfolding writepdu writepdu_at
writepdu_first r b long short t =
    let more : (0 == length b) ≡ false = ground (arith, long) in
    rw more (
      subst
        (λ n.
          PduWritten (frame b)
            (some (write_rest r (record { buf = some b; sz = n; solong = some 0 }) (frame b) 0)))
        (length-stamp b long)
        (write_rest_lem r (some b) (frame b) 0 (omega arith) (frame-IsFrame b long short)
          (subst (λ n. Takes n r) (sym (length-stamp b long) ∙ omega arith) t)))

-- What is left to go out, unless the writer is dead.
abbrev pub Writing : Connection → Bytes → Type 0
Writing c rest = (c.dead ≡ true) ⊎ Holds c.wpdu rest

-- What went out and what is left are what there was.
abbrev pub PutOut : Bytes → Option (Connection × Bytes) → Type 0
PutOut rest none = Unit
PutOut rest (some (c, out)) = (left : Bytes) × (rest ≡ out ++ left) × Writing c left

written_lem :
    (c : Connection) (rest : Bytes) (o : Option (Bool × Charbuf × Bytes))
    → PduWritten rest o
    → PutOut rest (written c o)
written_lem c rest none h = tt
written_lem c rest (some (ok, p, out)) h = h

-- What a look of a thread in `send` leaves, as a look that starts finds no buffer and a connection
-- that is not dead.
abbrev pub Looked : Bytes → Connection → Option Sent → Type 0
Looked b c none = Unit
Looked b c (some waits) = Unit
Looked b c (some (returns_false w)) = (c.dead ≡ true) × (w.dead ≡ true)
Looked b c (some (started w out)) =
    (c.dead ≡ false)
    × (has_buf c.wpdu ≡ false)
    × ((left : Bytes) × (frame b ≡ out ++ left) × Writing w left)

send_started_lem :
    (b : Bytes) (c : Connection) (o : Option (Bool × Charbuf × Bytes))
    → c.dead ≡ false
    → has_buf c.wpdu ≡ false
    → PduWritten (frame b) o
    → Looked b c (send_started c o)
send_started_lem b c none d n h = tt
send_started_lem b c (some (ok, p, out)) d n h = (d, n, h)

send_look_at :
    (b : Bytes) (r : Write) (d : Bool) (c : Connection)
    → 4 < length b
    → length b < 2147483648
    → Takes (length b) r
    → Looked b (record c { dead = d }) (send_look b (length b) r (record c { dead = d }))
unfolding send_look
send_look_at b r true c long short t = (refl, refl)
send_look_at b r false c long short t = elim (Bool-cases (has_buf c.wpdu)) [
  | inl e ↦ rw e tt
  | inr e ↦ rw e (
      send_started_lem b (record c { dead = false })
        (writepdu r (record { buf = some b; sz = length b; solong = some 0 })) refl e
        (writepdu_first r b long short t))
]

pub send_look_lem :
    (b : Bytes) (r : Write) (c : Connection)
    → 4 < length b
    → length b < 2147483648
    → Takes (length b) r
    → Looked b c (send_look b (length b) r c)
send_look_lem b r c = send_look_at b r c.dead c

write_cb_at :
    (r : Write) (d : Bool) (c : Connection) (rest : Bytes)
    → Writing (record c { dead = d }) rest
    → Takes (size_left c.wpdu) r
    → PutOut rest (write_cb r (record c { dead = d }))
unfolding write_cb
write_cb_at r true c rest i t = tt
write_cb_at r false c rest (inl e) t = absurd (cc e)
write_cb_at r false c rest (inr h) t = elim (Bool-cases (c.wpdu.sz == 0)) [
  | inl e ↦ rw e (rest, refl, inr h)
  | inr e ↦ rw e (
      written_lem (record c { dead = false }) rest (writepdu r c.wpdu)
        (held_written r c.wpdu rest e h t))
]

pub write_cb_lem :
    (r : Write) (c : Connection) (rest : Bytes)
    → Writing c rest
    → Takes (size_left c.wpdu) r
    → PutOut rest (write_cb r c)
write_cb_lem r c = write_cb_at r c.dead c

abbrev pub Ended : Bytes → Option (Connection × Bool) → Type 0
Ended rest none = Unit
Ended rest (some (c, ret)) = Writing c rest

-- What is held once nothing is under way has gone out.
all_out : (p : Charbuf) (rest : Bytes) → under_way p ≡ false → Holds p rest → rest ≡ []
all_out p rest u (nothing e z) = z
all_out p rest u (part b k e le f z) =
    let full : k ≡ length b = ground (arith, sym (ap (λ q. under_way q) e) ∙ u, le) in
    z ∙ ap (λ n. drop n b) full ∙ drop-all b

send_end_at :
    (d : Bool) (c : Connection) (rest : Bytes)
    → Writing (record c { dead = d }) rest
    → Ended rest (send_end (record c { dead = d }))
unfolding send_end
send_end_at true c rest i = inl refl
send_end_at false c rest (inl e) = absurd (cc e)
send_end_at false c rest (inr h) = elim (Bool-cases (under_way c.wpdu)) [
  | inl e ↦ rw e tt
  | inr e ↦ rw e (inr (nothing refl (all_out c.wpdu rest e h)))
]

pub send_end_lem : (c : Connection) (rest : Bytes) → Writing c rest → Ended rest (send_end c)
send_end_lem c = send_end_at c.dead c

true_done :
    (c w : Connection) → send_end c ≡ some (w, true) → (c.dead ≡ false) × (all_done c.wpdu ≡ true)
unfolding send_end
true_done c w e = ground (arith, e)

-- A `send` that returns true put out all of its PDU.
pub returned_true :
    (c w : Connection) (rest : Bytes)
    → send_end c ≡ some (w, true)
    → Writing c rest
    → (c.dead ≡ false) × (rest ≡ [])
returned_true c w rest e (inl d) = absurd (cc (d, (true_done c w e).0))
returned_true c w rest e (inr h) =
    let ret = true_done c w e in (ret.0, all_out c.wpdu rest (ground (arith, ret.1)) h)
