-- ===== src/Rpc/Connection/Delivery.antt =====
-- What one direction of a connection of rpc/connection.cc delivers, over any sequence of events.
use simple_distributed_files.Prelude.{
  ℕ, ◌<◌, ◌≡◌, refl, sym, ap, ap₂, ◌∙◌, subst, ◌⊎◌, inl, inr, true, false, List, [], ◌∷◌, ◌++◌,
  append_assoc, append-nil, Option, some, arith, Bytes, length, length-append, All, All-append,
  All-tail,
}
use simple_distributed_files.Rpc.Connection.{
  Connection, started, send_end, has_buf, send_enter, closeconn,
}
use simple_distributed_files.Rpc.Connection.Framing.{
  Link, link_new, took, frame, IsFrame, Step, enters, starts, turned_away, writes, ends, reads,
  closes, reader_closes, Steps, done, next,
}
use simple_distributed_files.Rpc.Connection.Reading.{joined, Reading, Reading-snoc}
use simple_distributed_files.Rpc.Connection.Receiving.{ReadBack, read_cb_lem}
use simple_distributed_files.Rpc.Connection.Writing.{
  nothing, part, Writing, Looked, send_look_lem, PutOut, write_cb_lem, Ended, send_end_lem,
  returned_true, frame-IsFrame,
}

-- The PDUs that are not delivered yet are in the reader's buffer, on the wire, or still to go out.
pub record IsFramed (l : Link) : Type 0 where
  pub pending : List Bytes
  pub rest : Bytes
  pub split : l.sent ≡ l.delivered ++ pending
  pub frames : All IsFrame pending
  pub reading : (l.reader.dead ≡ true) ⊎ Reading l.reader.rpdu pending (l.wire ++ rest)
  pub writing : Writing l.writer rest

link_new-IsFramed : (t u : ℕ × ℕ) → IsFramed (link_new t u)
link_new-IsFramed t u = record {
  pending = [];
  rest = [];
  split = refl;
  frames = tt;
  reading = inr (inl (refl, refl));
  writing = inr (nothing refl refl);
}

-- The reader's side, where only the writer's side or the cut of the bytes changes.
recut :
    (c : Connection) (pending : List Bytes) (u v : Bytes)
    → u ≡ v
    → (c.dead ≡ true) ⊎ Reading c.rpdu pending u
    → (c.dead ≡ true) ⊎ Reading c.rpdu pending v
recut c pending u v e = subst (λ w. (c.dead ≡ true) ⊎ Reading c.rpdu pending w) e

-- A writer that puts out some of the bytes.
put_out :
    (l : Link) (i : IsFramed l) (w : Connection) (out left : Bytes)
    → i.rest ≡ out ++ left
    → Writing w left
    → IsFramed (record l { writer = w; wire = l.wire ++ out })
put_out l i w out left e h = record {
  pending = i.pending;
  rest = left;
  split = i.split;
  frames = i.frames;
  reading =
      recut l.reader i.pending _ _ (ap (λ x. l.wire ++ x) e ∙ sym (append_assoc l.wire out left))
        i.reading;
  writing = h;
}

-- A writer with no buffer has put out everything.
held_nothing :
    (c : Connection) (rest : Bytes)
    → c.dead ≡ false
    → has_buf c.wpdu ≡ false
    → Writing c rest
    → rest ≡ []
held_nothing c rest d n (inl e) = absurd (cc (d, e))
held_nothing c rest d n (inr (nothing e z)) = z
held_nothing c rest d n (inr (part b k e le f z)) = absurd (cc (n, ap (λ p. has_buf p) e))

one_more_pdu :
    (c : Connection) (pending : List Bytes) (tail f : Bytes)
    → (c.dead ≡ true) ⊎ Reading c.rpdu pending tail
    → (c.dead ≡ true) ⊎ Reading c.rpdu (pending ++ f ∷ []) (tail ++ f)
one_more_pdu c pending tail f (inl e) = inl e
one_more_pdu c pending tail f (inr h) = inr (Reading-snoc c.rpdu pending tail f h)

begun :
    (l : Link) (i : IsFramed l) (b out : Bytes) (w : Connection)
    → 4 < length b
    → length b < 2147483648
    → Looked b l.writer (some (started w out))
    → IsFramed (record l { writer = w; wire = l.wire ++ out; sent = l.sent ++ frame b ∷ [] })
begun l i b out w long short (alive, free, (left, e, h)) =
    let z = held_nothing l.writer i.rest alive free i.writing in
    record {
      pending = i.pending ++ frame b ∷ [];
      rest = left;
      split =
          ap (λ x. x ++ frame b ∷ []) i.split ∙ append_assoc l.delivered i.pending (frame b ∷ []);
      frames =
          All-append IsFrame i.pending (frame b ∷ []) i.frames (frame-IsFrame b long short, tt);
      reading =
          recut l.reader (i.pending ++ frame b ∷ []) ((l.wire ++ i.rest) ++ frame b) _
            (ap (λ x. (l.wire ++ x) ++ frame b) z
              ∙ ap (λ x. x ++ frame b) (append-nil l.wire)
              ∙ ap (λ x. l.wire ++ x) e
              ∙ sym (append_assoc l.wire out left))
            (one_more_pdu l.reader i.pending (l.wire ++ i.rest) (frame b) i.reading);
      writing = h;
    }

received :
    (l : Link) (i : IsFramed l) (after : Bytes) (c : Connection) (out : Option Bytes)
    → ReadBack i.pending (after ++ i.rest) (some (c, out))
    → IsFramed (record l { reader = c; wire = after; delivered = l.delivered ++ took out })
received l i after c out (left, e, h) = record {
  pending = left;
  rest = i.rest;
  split = i.split ∙ ap (λ x. l.delivered ++ x) e ∙ sym (append_assoc l.delivered (took out) left);
  frames = All-tail IsFrame (took out) left (subst (λ x. All IsFrame x) e i.frames);
  reading = h;
  writing = i.writing;
}

-- A writer that changes with nothing put out.
rewritten :
    (l : Link) (i : IsFramed l) (w : Connection)
    → Writing w i.rest
    → IsFramed (record l { writer = w })
rewritten l i w h = record {
  pending = i.pending;
  rest = i.rest;
  split = i.split;
  frames = i.frames;
  reading = i.reading;
  writing = h;
}

pub step-IsFramed : (l m : Link) → IsFramed l → Step l m → IsFramed m
unfolding send_enter closeconn
step-IsFramed _ _ i (enters l) = rewritten l i (send_enter l.writer) i.writing
step-IsFramed _ _ i (starts l b out r w long short t e) =
    begun l i b out w long short
      (subst (λ o. Looked b l.writer o) e (send_look_lem b r l.writer long short t))
step-IsFramed _ _ i (turned_away l b r w long short t e) =
    let h : (l.writer.dead ≡ true) × (w.dead ≡ true) =
      subst (λ o. Looked b l.writer o) e (send_look_lem b r l.writer long short t) in
    rewritten l i w (inl h.1)
step-IsFramed _ _ i (writes l out r w t e) =
    let h : PutOut i.rest (some (w, out)) =
      subst (λ o. PutOut i.rest o) e (write_cb_lem r l.writer i.rest i.writing t) in
    put_out l i w out h.0 h.1 h.2
step-IsFramed _ _ i (ends l w ret e) =
    rewritten l i w (subst (λ o. Ended i.rest o) e (send_end_lem l.writer i.rest i.writing))
step-IsFramed _ _ i (reads l mid after first second taken c out g h e) = received l i after c out (
    subst (λ o. ReadBack i.pending (after ++ i.rest) o) e
      (read_cb_lem i.pending i.rest l.wire mid after first second taken l.reader i.frames i.reading
        g h))
step-IsFramed _ _ i (closes l) = rewritten l i (closeconn l.writer) (inl refl)
step-IsFramed _ _ i (reader_closes l) = record {
  pending = i.pending;
  rest = i.rest;
  split = i.split;
  frames = i.frames;
  reading = inl refl;
  writing = i.writing;
}

pub steps-IsFramed : (l m : Link) → IsFramed l → Steps l m → IsFramed m
steps-IsFramed _ _ i (done l) = i
steps-IsFramed _ _ i (next l m k s ss) = steps-IsFramed m k (step-IsFramed l m i s) ss

-- Over any sequence of events of one direction of a connection - threads that send PDUs of more
-- than four bytes and less than 2^31, writes and reads of any size that the kernel grants, errors,
-- and closing at either end - the PDUs that the reader's manager took are a prefix of those that
-- were sent, each whole, stamped with its size, and in the order they were sent.
pub frames_in_order :
    (t u : ℕ × ℕ) (l : Link)
    → Steps (link_new t u) l
    → (pending : List Bytes) × (l.sent ≡ l.delivered ++ pending)
frames_in_order t u l steps =
    let i = steps-IsFramed (link_new t u) l (link_new-IsFramed t u) steps in (i.pending, i.split)

-- With no part of a PDU in the buffer, what is to come is what is pending.
unread :
    (c : Connection) (pending : List Bytes) (tail : Bytes)
    → c.dead ≡ false
    → has_buf c.rpdu ≡ false
    → (c.dead ≡ true) ⊎ Reading c.rpdu pending tail
    → joined pending ≡ tail
unread c pending tail alive free (inl e) = absurd (cc (alive, e))
unread c pending tail alive free (inr (inl (e, whole))) = whole
unread c pending tail alive free (inr (inr a)) = absurd (cc (free, ap (λ p. has_buf p) a.r_is))

nothing_pending : (pending : List Bytes) → All IsFrame pending → joined pending ≡ [] → pending ≡ []
nothing_pending [] f e = refl
nothing_pending (p ∷ ps) f e =
    absurd (omega (arith, ap length e, length-append p (joined ps), f.0.long))

-- Once `send` returned true, nothing is on the wire, and the reader is not dead and has no part of
-- a PDU in its buffer, every PDU that was sent was delivered.
pub all_arrive :
    (t u : ℕ × ℕ) (l : Link) (w : Connection)
    → Steps (link_new t u) l
    → send_end l.writer ≡ some (w, true)
    → l.wire ≡ []
    → l.reader.dead ≡ false
    → has_buf l.reader.rpdu ≡ false
    → l.delivered ≡ l.sent
all_arrive t u l w steps e z alive free =
    let i = steps-IsFramed (link_new t u) l (link_new-IsFramed t u) steps in
    let ret = returned_true l.writer w i.rest e i.writing in
    let none_left =
      nothing_pending i.pending i.frames
        (unread l.reader i.pending _ alive free i.reading ∙ ap₂ (λ x y. x ++ y) z ret.1) in
    sym (i.split ∙ ap (λ x. l.delivered ++ x) none_left ∙ append-nil l.delivered)
