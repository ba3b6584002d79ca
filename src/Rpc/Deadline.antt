-- ===== src/Rpc/Deadline.antt =====
-- A call ends: the waits of `rpcc::call1` (rpc/rpc.cc) double until they pass the final deadline.
use simple_distributed_files.Prelude.{
  ℕ, zero, suc, ◌+◌, ◌-◌, ◌*◌, ◌/◌, ◌%◌, ◌^◌, ◌≤◌, ◌<◌, ◌≡◌, ◌≢◌, ◌↔◌, refl, ◌∙◌, inl, inr, Bool,
  true, false, List, [], ◌∷◌, none, arith, ltb, length, All, Bool-cases,
}
use native.Mathlib.Decide.{dec_lt}
use simple_distributed_files.Rpc.Timeouts.{
  Timespec, cmp_timespec, billion, carry, add_timespec, Round, Loop, loop_new, transmit_if,
  is_after, set_deadline, next_round, call_loop,
}

-- The time in nanoseconds.
abbrev pub nanos : Timespec → ℕ
nanos t = t.tv_sec * billion + t.tv_nsec

carry-nanos : (n sec nsec : ℕ) → nanos (carry n sec nsec) ≡ sec * billion + nsec
unfolding carry
carry-nanos zero sec nsec = refl
carry-nanos (suc n) sec nsec = elim (Bool-cases (ltb billion nsec)) [
  | inl more ↦ rw (more, carry) (carry-nanos n (sec + 1) (nsec - billion) ∙ ground (arith, more))
  | inr less ↦ rw (less, carry) refl
]

carry_bounded : (n sec nsec : ℕ) → nsec ≤ (n + 1) * billion → (carry n sec nsec).tv_nsec ≤ billion
unfolding carry
carry_bounded zero sec nsec le = omega (arith, le)
carry_bounded (suc n) sec nsec le = elim (Bool-cases (ltb billion nsec)) [
  | inl more ↦ rw (more, carry) (carry_bounded n (sec + 1) (nsec - billion) (omega (arith, le)))
  | inr less ↦ rw (less, carry) (ground (arith, less))
]

carry_whole : (n sec nsec : ℕ) → nsec ≤ billion → (carry n sec nsec).tv_nsec ≡ nsec
unfolding carry
carry_whole zero sec nsec le = refl
carry_whole (suc n) sec nsec le = ground (arith, le)

carry_over :
    (n sec nsec : ℕ)
    → billion < nsec
    → nsec < 2 * billion
    → 0 < n
    → (carry n sec nsec).tv_nsec ≡ nsec - billion
unfolding carry
carry_over zero sec nsec above below pos = absurd (omega (arith, pos))
carry_over (suc n) sec nsec above below pos =
    ground (arith, above, carry_whole n (sec + 1) (nsec - billion) (omega (arith, below)))

-- Whatever the milliseconds, adding them to a time with a valid part of a second adds just that
-- time, and leaves at most a billion nanoseconds in the part of a second. It leaves a whole billion,
-- which is no valid part of a second, exactly when the parts of a second add up to a billion.
add_timespec_lem :
    (a : Timespec) (b : ℕ)
    → a.tv_nsec < billion
    → (nanos (add_timespec a b) ≡ nanos a + b * 1000000)
      × ((add_timespec a b).tv_nsec ≤ billion)
      × (((add_timespec a b).tv_nsec ≡ billion) ↔ (a.tv_nsec + b % 1000 * 1000000 ≡ billion))
unfolding add_timespec
add_timespec_lem a b valid =
    let nsec = a.tv_nsec + b % 1000 * 1000000 in
    let rounds = nsec / billion in
    let total = carry-nanos rounds (a.tv_sec + b / 1000) nsec in
    let bounded = carry_bounded rounds (a.tv_sec + b / 1000) nsec (omega arith) in
    elim (dec_lt billion nsec) [
      | yes above ↦
          let part =
            carry_over rounds (a.tv_sec + b / 1000) nsec above (omega (arith, valid))
              (omega (arith, above)) in
          (omega (arith, total), bounded, (omega (arith, part, above, valid), omega (arith, above)))
      | no under ↦
          let part = carry_whole rounds (a.tv_sec + b / 1000) nsec (omega (arith, under)) in
          (omega (arith, total), bounded, (omega (arith, part), omega (arith, part)))
    ]

is_after-cmp :
    (a b : Timespec) → a.tv_nsec ≤ billion → nanos b < nanos a → is_after (cmp_timespec a b) ≡ true
unfolding cmp_timespec
is_after-cmp a b le h = ground (arith, le, h)

-- A loop with no final deadline left ends in the next round.
spent_ends :
    (retrans : Bool) (rs : List Round) (l : Loop)
    → 0 < length rs
    → l.finaldeadline.tv_sec ≡ 0
    → call_loop retrans rs l ≢ none
unfolding call_loop transmit_if
spent_ends retrans [] l pos z e = omega (arith, pos)
spent_ends retrans (r ∷ rs) l pos z e = ground (arith, z, e)

step_ends :
    (retrans : Bool) (r : Round) (rs : List Round) (l : Loop)
    → call_loop retrans rs (next_round retrans r (set_deadline r.now (transmit_if r l)).0) ≢ none
    → call_loop retrans (r ∷ rs) l ≢ none
unfolding call_loop
step_ends retrans r rs l rest e = ground (arith, rest, e)

-- The loop's state after a round whose wait did not end with a reply.
abbrev after_round : Bool → Round → Loop → Loop
after_round retrans r l = next_round retrans r (set_deadline r.now (transmit_if r l)).0

abbrev is_last : Round → Loop → Bool
is_last r l = is_after (cmp_timespec (add_timespec r.now l.curr_to) l.finaldeadline)

round_last :
    (retrans : Bool) (r : Round) (l : Loop)
    → is_last r l ≡ true
    → (after_round retrans r l).finaldeadline.tv_sec ≡ 0
unfolding next_round set_deadline transmit_if
round_last retrans r l e = ground (arith, e)

round_more :
    (retrans : Bool) (r : Round) (l : Loop)
    → is_last r l ≡ false
    → ((after_round retrans r l).finaldeadline ≡ l.finaldeadline)
      × ((after_round retrans r l).curr_to ≡ l.curr_to * 2 % 2 ^ 32)
unfolding next_round set_deadline transmit_if
round_more retrans r l e = (ground (arith, e), ground (arith, e))

closer :
    (r : Round) (l : Loop) (start : ℕ)
    → start ≤ nanos r.now
    → r.now.tv_nsec < billion
    → nanos l.finaldeadline < start + l.curr_to * 1000000
    → is_last r l ≡ true
closer r l start le valid h =
    let a = add_timespec_lem r.now l.curr_to valid in
    is_after-cmp (add_timespec r.now l.curr_to) l.finaldeadline a.1 (omega (arith, le, h, a.0))

-- A wait after so many more rounds, without the bound of an `int`.
abbrev doubled : ℕ → ℕ → ℕ
doubled zero to = to
doubled (suc m) to = doubled m (to * 2)

doubled_grows : (m to : ℕ) → to ≤ doubled m to
doubled_grows zero to = omega arith
doubled_grows (suc m) to = omega (arith, doubled_grows m (to * 2))

-- The waits double until the final deadline is closer than the next wait.
call_loop_doubles :
    (m : ℕ) (retrans : Bool) (rs : List Round) (l : Loop) (start : ℕ)
    → m + 1 < length rs
    → All (λ r. (start ≤ nanos r.now) × (r.now.tv_nsec < billion)) rs
    → nanos l.finaldeadline < start + doubled m l.curr_to * 1000000
    → doubled m l.curr_to < 2 ^ 32
    → call_loop retrans rs l ≢ none
call_loop_doubles m retrans [] l start long clock h fits = absurd (omega (arith, long))
call_loop_doubles zero retrans (r ∷ rs) l start long clock h fits = step_ends retrans r rs l (
    spent_ends retrans rs _ (omega (arith, long))
      (round_last retrans r l (closer r l start clock.0.0 clock.0.1 h)))
call_loop_doubles (suc m) retrans (r ∷ rs) l start long clock h fits =
    step_ends retrans r rs l (elim (Bool-cases (is_last r l)) [
      | inl last ↦ spent_ends retrans rs _ (omega (arith, long)) (round_last retrans r l last)
      | inr more ↦
          let q = round_more retrans r l more in
          let c : (after_round retrans r l).curr_to ≡ l.curr_to * 2 =
            q.1 ∙ omega (arith, fits, doubled_grows m (l.curr_to * 2)) in
          call_loop_doubles m retrans rs (after_round retrans r l) start (omega (arith, long))
            clock.1 (rw (q.0, c) h) (rw c fits)
    ])

-- A call that waits at most about 24 days ends: whatever the connections do and whether a reply
-- comes, if the waits return and no reading of the clock is invalid or earlier than the one at the
-- start, the loop ends within 23 rounds.
pub call_loop_ends :
    (retrans : Bool) (rs : List Round) (now : Timespec) (to : ℕ)
    → to < 1000 * 2 ^ 21
    → now.tv_nsec < billion
    → All (λ r. (nanos now ≤ nanos r.now) × (r.now.tv_nsec < billion)) rs
    → 22 < length rs
    → call_loop retrans rs (loop_new now to) ≢ none
call_loop_ends retrans rs now to short valid clock long =
    call_loop_doubles 21 retrans rs (loop_new now to) (nanos now) (omega (arith, long)) clock
      (omega (arith, short, (add_timespec_lem now to valid).0)) (omega arith)
