-- ===== src/Rpc/Received.antt =====
-- `xid_rep` of a client (rpc/rpc.cc): the front of its window is the number up to which all requests
-- had a reply, or their calls ended without one.
pub mod Invariant
use simple_distributed_files.Prelude.{
  ℕ, zero, suc, ◌≤◌, ◌<◌, ◌≡◌, ◌≢◌, refl, sym, subst, inl, inr, ◌⊎◌, ◌↔◌, false, List, [], ◌∷◌,
  arith, ltb, leb, All, All-Has, Has, Bool-cases, Bytes, Option-cases, lookup,
}
use native.Mathlib.Decide.{dec_lt}
use simple_distributed_files.Rpc.Marshall.{ReplyHeader}
use simple_distributed_files.Rpc.Client.{
  Client, Window, client_new, window_new, insert_xid, update_xid_rep, start_call, end_call, got_pdu,
  bind, cancel,
}
use simple_distributed_files.Rpc.Compress.{
  IsXid, IsAscending, IsAscending-insert, Has-insert, insert-Has, Compressed, compress-Compressed,
}
use simple_distributed_files.Rpc.Received.Invariant.{IsWindow, update-IsWindow}

-- What happens to a client: a call begins, a reply comes, a call ends, with its reply or without one
-- after its time is out or it was cancelled, `cancel`, and the end of `bind`.
pub data Event : Type 0 where
  begins : ℕ → Event
  replied : ReplyHeader → Bytes → Event
  ended : ℕ → Event
  cancels : Event
  binds : ℕ → ℕ → Event

unfoldable pub event : Event → Client → Client
event (begins proc) c = (start_call proc c).0
event (replied h rep) c = got_pdu h rep c
event (ended xid) c = (end_call xid c).0
event cancels c = cancel c
event (binds ret r) c = bind ret r c

-- The client after these events, the latest first.
unfoldable pub client_after : ℕ → List Event → Client
client_after nonce [] = client_new nonce
client_after nonce (e ∷ es) = event e (client_after nonce es)

-- The numbers of the requests to which a reply came, or whose call ended.
abbrev pub settled : List Event → List ℕ
settled [] = []
settled (begins proc ∷ es) = settled es
settled (replied h rep ∷ es) = h.xid ∷ settled es
settled (ended xid ∷ es) = xid ∷ settled es
settled (cancels ∷ es) = settled es
settled (binds ret r ∷ es) = settled es

new-IsWindow : IsWindow [] window_new
new-IsWindow = record {
  ascending = tt;
  gap = tt;
  below = λ j h k. absurd (omega (arith, h, k));
  kept = λ j h. absurd h;
  from = λ j h. absurd h;
  fits = omega arith;
  xids = tt;
}

begins-window : (proc : ℕ) (c : Client) → (start_call proc c).0.window ≡ c.window
unfolding start_call
begins-window proc c = ground arith

replied-window :
    (h : ReplyHeader) (rep : Bytes) (c : Client)
    → (got_pdu h rep c).window ≡ update_xid_rep h.xid c.window
unfolding got_pdu
replied-window h rep c = elim (Option-cases (lookup h.xid c.calls)) [
  | inl gone ↦ rw (gone, got_pdu) refl
  | inr (ca, there) ↦ rw (there, got_pdu) refl
]

binds-window : (ret r : ℕ) (c : Client) → (bind ret r c).window ≡ c.window
unfolding bind
binds-window ret r c = ground arith

client_after-IsWindow :
    (nonce : ℕ) (es : List Event)
    → All IsXid (settled es)
    → IsWindow (settled es) (client_after nonce es).window
unfolding client_after event end_call cancel
client_after-IsWindow nonce [] h = new-IsWindow
client_after-IsWindow nonce (begins proc ∷ es) h =
    subst (IsWindow (settled es)) (sym (begins-window proc (client_after nonce es)))
      (client_after-IsWindow nonce es h)
client_after-IsWindow nonce (replied r rep ∷ es) h =
    subst (IsWindow (r.xid ∷ settled es)) (sym (replied-window r rep (client_after nonce es)))
      (update-IsWindow r.xid (settled es) _ h.0 (client_after-IsWindow nonce es h.1))
client_after-IsWindow nonce (ended xid ∷ es) h =
    update-IsWindow xid (settled es) (client_after nonce es).window h.0
      (client_after-IsWindow nonce es h.1)
client_after-IsWindow nonce (cancels ∷ es) h = client_after-IsWindow nonce es h
client_after-IsWindow nonce (binds ret r ∷ es) h =
    subst (IsWindow (settled es)) (sym (binds-window ret r (client_after nonce es)))
      (client_after-IsWindow nonce es h)

-- All of the numbers from 1 to this one have come.
abbrev pub HasUpTo : ℕ → List ℕ → Type 0
HasUpTo zero got = Unit
HasUpTo (suc n) got = Has (suc n) got × HasUpTo n got

HasUpTo-below :
    (n front : ℕ) (got : List ℕ)
    → ((j : ℕ) → 0 < j → j ≤ front → Has j got)
    → n ≤ front
    → HasUpTo n got
HasUpTo-below zero front got h le = tt
HasUpTo-below (suc n) front got h le =
    (h (suc n) (omega arith) le, HasUpTo-below n front got h (omega (arith, le)))

below-HasUpTo : (n j : ℕ) (got : List ℕ) → HasUpTo n got → 0 < j → j ≤ n → Has j got
below-HasUpTo zero j got h pos le = absurd (omega (arith, pos, le))
below-HasUpTo (suc n) j got h pos le = elim (dec_lt n j) [
  | yes above ↦ let e : j ≡ suc n = omega (arith, above, le) in subst (λ k. Has k got) (sym e) h.0
  | no under ↦ below-HasUpTo n j got h.1 pos (omega (arith, under))
]

-- After the front comes a gap: the next number is neither in the front nor in the rest.
missing : (n : ℕ) (got : List ℕ) (w : Window) → IsWindow got w → HasUpTo n got → n ≤ w.front
missing n got w i h = elim (dec_lt w.front n) [
  | yes above ↦
      elim (i.kept (suc w.front)
        (below-HasUpTo n (suc w.front) got h (omega arith) (omega (arith, above)))) [
          | inl le ↦ absurd (omega (arith, le))
          | inr held ↦ absurd (All-Has (λ b. b ≢ suc w.front) (suc w.front) w.rest i.gap held refl)
        ]
  | no under ↦ omega (arith, under)
]

-- Over any history of a client - calls that begin, replies in any order and number, calls that end
-- with a reply, by a timeout or cancelled - in which the numbers of replies and of ended calls are
-- below 2 ^ 32 - 1: the number that `rpcc` reports to the server (`xid_rep`, the front of its
-- window) is the greatest up to which every request is settled: a number is at most the front
-- exactly when each request from 1 to it has had a reply or its call has ended, with or without one.
pub xid_rep_exact :
    (nonce : ℕ) (es : List Event) (n : ℕ)
    → All IsXid (settled es)
    → (n ≤ (client_after nonce es).window.front) ↔ HasUpTo n (settled es)
xid_rep_exact nonce es n xids =
    let i = client_after-IsWindow nonce es xids in
    (
      HasUpTo-below n _ (settled es) i.below,
      missing n (settled es) (client_after nonce es).window i,
    )
