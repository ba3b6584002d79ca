-- ===== src/Rpc/Fifo.antt =====
-- The bounded queue of rpc/fifo.h. A thread that blocks waits with the mutex given up, until it
-- looks again.
use simple_distributed_files.Prelude.{
  ℕ, ◌≤◌, ◌<◌, ◌≡◌, refl, sym, ap, ◌∙◌, subst, ◌⊎◌, inl, inr, Bool, true, not, ◌||◌, List, [], ◌∷◌,
  ◌++◌, append_assoc, Option, none, some, arith, ltb, ◌==◌, if◌then◌else◌, length, length-append,
  Bool-cases,
}
use native.Mathlib.Decide.{dec_lt}

pub record Fifo (A : Type 0) : Type 0 where
  pub q : List A
  pub max : ℕ

-- What a call ends with: it is done, it gives up, or it waits.
pub data Tried (A : Type 0) : Type 0 where
  done : Fifo A → Tried A
  gives_up waits : Tried A

module _ {A : Type 0} where
  abbrev pub fifo_new : ℕ → Fifo A
  fifo_new max = record { q = []; max = max }

  -- The `bool` that `size` returns.
  unfoldable pub size : Fifo A → Bool
  size f = not (length f.q == 0)

  unfoldable pub enq : A → Bool → Fifo A → Tried A
  enq e blocking f =
      if f.max == 0 || ltb (length f.q) f.max
      then done (record f { q = f.q ++ e ∷ [] })
      else if blocking
      then waits
      else gives_up

  -- `none` while it waits.
  unfoldable pub deq : Fifo A → Option (Fifo A × A)
  deq f = elim f.q [ [] ↦ none | e ∷ es ↦ some (record f { q = es }, e) ]

-- One look of a thread at the queue.
pub data Look (A : Type 0) : Type 0 where
  puts : A → Bool → Look A
  takes : Look A

-- A queue with what has gone in and what has come out, the latest last.
pub record Traffic (A : Type 0) : Type 0 where
  pub fifo : Fifo A
  pub entered : List A
  pub left : List A

module _ {A : Type 0} where
  abbrev pub after_enq : A → Traffic A → Tried A → Traffic A
  after_enq e t (done f) = record t { fifo = f; entered = t.entered ++ e ∷ [] }
  after_enq e t gives_up = t
  after_enq e t waits = t

  abbrev pub after_deq : Traffic A → Option (Fifo A × A) → Traffic A
  after_deq t none = t
  after_deq t (some (f, e)) = record t { fifo = f; left = t.left ++ e ∷ [] }

  unfoldable pub look : Look A → Traffic A → Traffic A
  look (puts e blocking) t = after_enq e t (enq e blocking t.fifo)
  look takes t = after_deq t (deq t.fifo)

  unfoldable pub look_all : List (Look A) → Traffic A → Traffic A
  look_all [] t = t
  look_all (l ∷ ls) t = look_all ls (look l t)

  -- What is in the queue is what has gone in and not come out, in order, and no more than fits.
  pub record IsInOrder (max : ℕ) (t : Traffic A) : Type 0 where
    pub order : t.entered ≡ t.left ++ t.fifo.q
    pub capacity : t.fifo.max ≡ max
    pub fits : 0 < max → length t.fifo.q ≤ max

  entered_one :
      (max : ℕ) (e : A) (t : Traffic A)
      → IsInOrder max t
      → (t.fifo.max == 0 || ltb (length t.fifo.q) t.fifo.max) ≡ true
      → IsInOrder max (after_enq e t (done (record t.fifo { q = t.fifo.q ++ e ∷ [] })))
  entered_one max e t i room = record {
    order = ap (λ x. x ++ e ∷ []) i.order ∙ append_assoc t.left t.fifo.q (e ∷ []);
    capacity = i.capacity;
    fits = λ pos. ground (arith, room, pos, i.capacity, length-append t.fifo.q (e ∷ []));
  }

  puts-IsInOrder :
      (max : ℕ) (e : A) (blocking : Bool) (t : Traffic A)
      → IsInOrder max t
      → IsInOrder max (look (puts e blocking) t)
  unfolding look enq
  puts-IsInOrder max e blocking t i =
      elim (Bool-cases (t.fifo.max == 0 || ltb (length t.fifo.q) t.fifo.max)) [
        | inl room ↦ rw (room, look) (entered_one max e t i room)
        | inr full ↦ elim (Bool-cases blocking) [
          | inl stays ↦ rw (full, stays, look) i
          | inr goes ↦ rw (full, goes, look) i
        ]
      ]

  pub deq_empty : (f : Fifo A) → f.q ≡ [] → deq f ≡ none
  unfolding deq
  deq_empty f e = ground (arith, e)

  pub deq_first :
      (f : Fifo A) (x : A) (q : List A) → f.q ≡ x ∷ q → deq f ≡ some (record f { q = q }, x)
  unfolding deq
  deq_first f x q e = ground (arith, e)

  takes_from :
      (max : ℕ) (q : List A) (t : Traffic A)
      → t.fifo.q ≡ q
      → IsInOrder max t
      → IsInOrder max (look takes t)
  unfolding look
  takes_from max [] t e i = subst (λ o. IsInOrder max (after_deq t o)) (sym (deq_empty t.fifo e)) i
  takes_from max (x ∷ q) t e i =
      subst (λ o. IsInOrder max (after_deq t o)) (sym (deq_first t.fifo x q e))
        (record {
          order = i.order ∙ ap (λ z. t.left ++ z) e ∙ sym (append_assoc t.left (x ∷ []) q);
          capacity = i.capacity;
          fits = λ pos. omega (arith, i.fits pos, ap length e);
        })

  look-IsInOrder :
      (max : ℕ) (l : Look A) (t : Traffic A) → IsInOrder max t → IsInOrder max (look l t)
  look-IsInOrder max (puts e blocking) t i = puts-IsInOrder max e blocking t i
  look-IsInOrder max takes t i = takes_from max t.fifo.q t refl i

  look_all-IsInOrder :
      (max : ℕ) (ls : List (Look A)) (t : Traffic A)
      → IsInOrder max t
      → IsInOrder max (look_all ls t)
  unfolding look_all
  look_all-IsInOrder max [] t i = i
  look_all-IsInOrder max (l ∷ ls) t i =
      look_all-IsInOrder max ls (look l t) (look-IsInOrder max l t i)

-- Whatever threads put in and take out, blocking or not: what came out of a queue that began empty,
-- followed by what is in it, is what went in, in order; and a queue with a limit holds no more.
pub look_all_lem :
    {A : Type 0} (max : ℕ) (ls : List (Look A))
    → let t = look_all ls (record { fifo = fifo_new max; entered = []; left = [] }) in
      (t.entered ≡ t.left ++ t.fifo.q) × ((max ≡ 0) ⊎ (length t.fifo.q ≤ max))
look_all_lem max ls =
    let i =
      look_all-IsInOrder max ls (record { fifo = fifo_new max; entered = []; left = [] })
        (record { order = refl; capacity = refl; fits = λ h. omega (arith, h) }) in
    (
      i.order,
      elim (dec_lt 0 max) [
        | yes pos ↦ inr (i.fits pos)
        | no none_set ↦ inl (omega (arith, none_set))
      ],
    )
