-- ===== src/Rpc/Timeouts.antt =====
-- The clock of rpc/rpc.cc (`cmp_timespec`, `add_timespec`, `diff_timespec`) and the loop of
-- `rpcc::call1` that sends a request and waits for its reply.
use simple_distributed_files.Prelude.{
  ℕ, zero, suc, ◌+◌, ◌-◌, ◌*◌, ◌/◌, ◌%◌, ◌^◌, Bool, true, false, not, ◌&&◌, ◌||◌, List, [], ◌∷◌,
  Option, none, some, ltb, ◌==◌, if◌then◌else◌,
}
use Prim.Native.Nat.{Ordering, lt, eq, gt}

pub record Timespec : Type 0 where
  pub tv_sec : ℕ
  pub tv_nsec : ℕ

-- The results 1, -1 and 0 are `gt`, `lt` and `eq`.
unfoldable pub cmp_timespec : Timespec → Timespec → Ordering
cmp_timespec a b =
    if ltb b.tv_sec a.tv_sec
    then gt
    else if ltb a.tv_sec b.tv_sec
    then lt
    else if ltb b.tv_nsec a.tv_nsec
    then gt
    else if ltb a.tv_nsec b.tv_nsec
    then lt
    else eq

abbrev pub billion : ℕ
billion = 1000000000

-- The `while` of `add_timespec`; it takes a billion off in each round, so that the first argument
-- is enough when it is the number of billions.
unfoldable pub carry : ℕ → ℕ → ℕ → Timespec
carry zero sec nsec = record { tv_sec = sec; tv_nsec = nsec }
carry (suc rounds) sec nsec =
    let rest = carry rounds (sec + 1) (nsec - billion) in
    if ltb billion nsec then rest else record { tv_sec = sec; tv_nsec = nsec }

-- `b` is a number of milliseconds, not negative.
unfoldable pub add_timespec : Timespec → ℕ → Timespec
add_timespec a b =
    let nsec = a.tv_nsec + b % 1000 * 1000000 in carry (nsec / billion) (a.tv_sec + b / 1000) nsec

-- `to_min` of `rpcc::TO`, in milliseconds.
abbrev pub to_min : ℕ
to_min = 1000

-- What one round of the loop meets: a connection or none, whether messages go out, the clock,
-- whether the reply is there when the wait ends, and whether the connection is dead then.
pub record Round : Type 0 where
  pub ch : Bool
  pub reachable : Bool
  pub now : Timespec
  pub done : Bool
  pub isdead : Bool

pub record Loop : Type 0 where
  pub transmit : Bool
  pub ch : Bool
  pub curr_to : ℕ
  pub finaldeadline : Timespec
  pub sends : ℕ

-- `call1` before its loop.
abbrev pub loop_new : Timespec → ℕ → Loop
loop_new now to = record {
  transmit = true;
  ch = false;
  curr_to = to_min;
  finaldeadline = add_timespec now to;
  sends = 0;
}

-- The first `if` of the loop.
unfoldable pub transmit_if : Round → Loop → Loop
transmit_if r l =
    if l.transmit
    then record l {
      transmit = false;
      ch = r.ch;
      sends = if r.ch && r.reachable then l.sends + 1 else l.sends;
    }
    else l

abbrev pub is_after : Ordering → Bool
is_after lt = false
is_after eq = false
is_after gt = true

-- `nextdeadline`, and the final deadline that is left: none (its seconds are 0) once the next one
-- is the final one.
unfoldable pub set_deadline : Timespec → Loop → Loop × Timespec
set_deadline now l =
    let next = add_timespec now l.curr_to in
    if is_after (cmp_timespec next l.finaldeadline)
    then (record l { finaldeadline = record l.finaldeadline { tv_sec = 0 } }, l.finaldeadline)
    else (l, next)

-- After the wait.
unfoldable pub next_round : Bool → Round → Loop → Loop
next_round retrans r l = record l {
  transmit = (retrans && (not l.ch || r.isdead)) || l.transmit;
  curr_to = l.curr_to * 2 % 2 ^ 32;
}

-- The loop over the rounds that happen; `none` if it has not ended with the last of them.
unfoldable pub call_loop : Bool → List Round → Loop → Option Loop
call_loop retrans [] l = none
call_loop retrans (r ∷ rs) l =
    let t = transmit_if r l in
    let d = (set_deadline r.now t).0 in
    let rest = call_loop retrans rs (next_round retrans r d) in
    if t.finaldeadline.tv_sec == 0 then some t else if r.done then some d else rest

-- `end` is not before `start`, or the process aborts; `int` arithmetic, as a bit pattern.
unfoldable pub diff_timespec : Timespec → Timespec → Option ℕ
diff_timespec end start =
    let diff = if ltb start.tv_sec end.tv_sec then (end.tv_sec - start.tv_sec) * 1000 else 0 in
    if not (diff == 0) || end.tv_sec == start.tv_sec
    then some (
        if ltb start.tv_nsec end.tv_nsec
        then (diff + (end.tv_nsec - start.tv_nsec) / 1000000) % 2 ^ 32
        else (diff + 2 ^ 32 - (start.tv_nsec - end.tv_nsec) / 1000000) % 2 ^ 32)
    else none
