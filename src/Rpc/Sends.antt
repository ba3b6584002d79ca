-- ===== src/Rpc/Sends.antt =====
-- How often `rpcc::call1` (rpc/rpc.cc) sends its request.
use simple_distributed_files.Prelude.{
  ℕ, ◌≡◌, ◌∙◌, Bool, true, false, List, [], ◌∷◌, some, arith, ◌==◌, All, Bool-cases, inl, inr, ◌⊎◌,
}
use simple_distributed_files.Rpc.Timeouts.{
  Timespec, Round, Loop, loop_new, transmit_if, set_deadline, next_round, call_loop,
}

-- There is a connection, messages go out, and it stays alive.
abbrev pub IsUp : Round → Type 0
IsUp r = (r.ch ≡ true) × (r.reachable ≡ true) × (r.isdead ≡ false)

deadline-sends : (now : Timespec) (l : Loop) → (set_deadline now l).0.sends ≡ l.sends
unfolding set_deadline
deadline-sends now l = ground arith

call_loop_cases :
    (retrans : Bool) (r : Round) (rs : List Round) (l l' : Loop)
    → call_loop retrans (r ∷ rs) l ≡ some l'
    → (l'.sends ≡ (transmit_if r l).sends)
      ⊎ (call_loop retrans rs (next_round retrans r (set_deadline r.now (transmit_if r l)).0)
          ≡ some l')
unfolding call_loop
call_loop_cases retrans r rs l l' e =
    let d = set_deadline r.now (transmit_if r l) in
    let s : d.0.sends ≡ (transmit_if r l).sends = deadline-sends r.now (transmit_if r l) in
    elim (Bool-cases ((transmit_if r l).finaldeadline.tv_sec == 0)) [
      | inl spent ↦ inl (ground (arith, e, spent))
      | inr left ↦ elim (Bool-cases r.done) [
        | inl done ↦ inl (ground (arith, e, left, done, s))
        | inr waits ↦ inr (ground (arith, e, left, waits))
      ]
    ]

sent_stays :
    (retrans : Bool) (rs : List Round) (l l' : Loop)
    → All IsUp rs
    → l.transmit ≡ false
    → l.ch ≡ true
    → call_loop retrans rs l ≡ some l'
    → l'.sends ≡ l.sends
unfolding call_loop transmit_if set_deadline next_round
sent_stays retrans [] l l' up t c e = cc
sent_stays retrans (r ∷ rs) l l' up t c e =
    let n = next_round retrans r (set_deadline r.now (transmit_if r l)).0 in
    elim (call_loop_cases retrans r rs l l' e) [
      | inl here ↦ ground (arith, here, t)
      | inr later ↦
          sent_stays retrans rs n l' up.1 (ground (arith, t, c, up.0.2)) (ground (arith, t, c))
            later
          ∙ ground (arith, t)
    ]

-- While the connection is up, the request of a call goes out exactly once, whenever the loop ends.
pub sent_once :
    (retrans : Bool) (r : Round) (rs : List Round) (now : Timespec) (to : ℕ) (l : Loop)
    → All IsUp (r ∷ rs)
    → call_loop retrans (r ∷ rs) (loop_new now to) ≡ some l
    → l.sends ≡ 1
unfolding call_loop transmit_if set_deadline next_round
sent_once retrans r rs now to l up e =
    let n = next_round retrans r (set_deadline r.now (transmit_if r (loop_new now to))).0 in
    elim (call_loop_cases retrans r rs (loop_new now to) l e) [
      | inl here ↦ ground (arith, here, up.0.0, up.0.1)
      | inr later ↦
          sent_stays retrans rs n l up.1 (ground (arith, up.0.0, up.0.2)) (ground (arith, up.0.0))
            later
          ∙ ground (arith, up.0.0, up.0.1)
    ]
