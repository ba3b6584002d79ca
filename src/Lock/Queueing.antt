-- ===== src/Lock/Queueing.antt =====
-- The server's promise about one lock: it is a queue of clients, whose first holds the lock.
use simple_distributed_files.Prelude.{
  ℕ, ◌≡◌, refl, sym, ap, ◌∙◌, subst, ◌≢◌, inl, inr, true, false, List, [], ◌∷◌, ◌++◌, Option, none,
  some, arith, Bytes, str_eq, str_eq→eq, str_eq_ne, str_eq_refl, if◌then◌else◌, ◌==◌, Dict, lookup,
  insert, lookup-insert, length, All, All-append, Bool-cases, Option-cases, none_ne_some, some_inj,
}
use simple_distributed_files.Lock.ServerCache.{
  free, CachedLockInfo, Server, ok, retry, acquire_lock, acquire, hand_over, release_lock, release,
}

-- Clients wait only for a lock that is held, a revoke is out only while clients wait, and no
-- client is called as the mark of a free lock.
pub record IsSound (l : CachedLockInfo) : Type 0 where
  pub waits : l.holder ≡ free → l.queue ≡ []
  pub asked : l.revoked ≡ true → l.queue ≢ []
  pub named : All (λ c. c ≢ free) l.queue

-- The clients that have the lock or wait for it, in the order of their turns.
unfoldable pub clients : CachedLockInfo → List Bytes
clients l = if str_eq l.holder free then [] else l.holder ∷ l.queue

abbrev pub tail : List Bytes → List Bytes
tail [] = []
tail (x ∷ xs) = xs

append_ne : (xs : List Bytes) (x : Bytes) → xs ++ x ∷ [] ≢ []
append_ne [] x h = cc
append_ne (y ∷ xs) x h = cc

str_eq_of_ne : (s t : Bytes) → s ≢ t → str_eq s t ≡ false
str_eq_of_ne s t h = ground (arith, str_eq→eq s t)

acquire_lock-IsSound :
    (id : Bytes) (l : CachedLockInfo) → id ≢ free → IsSound l → IsSound (acquire_lock id l).0
unfolding acquire_lock
acquire_lock-IsSound id l named s = elim (Bool-cases (str_eq l.holder free)) [
  | inl idle ↦
      rw (idle, acquire_lock)
        (record { waits = λ e. absurd (named e); asked = s.asked; named = s.named })
  | inr held ↦
      rw (held, acquire_lock)
        (record {
          waits = λ e. absurd (str_eq_ne l.holder free held e);
          asked = λ _. append_ne l.queue id;
          named = All-append _ l.queue (id ∷ []) s.named (named, tt);
        })
]

acquire_lock-clients :
    (id : Bytes) (l : CachedLockInfo)
    → id ≢ free
    → IsSound l
    → (clients (acquire_lock id l).0 ≡ clients l ++ id ∷ [])
      × ((acquire_lock id l).1 ≡ (if length (clients l) == 0 then ok else retry))
unfolding acquire_lock clients
acquire_lock-clients id l named s = elim (Bool-cases (str_eq l.holder free)) [
  | inl idle ↦
      rw (idle, acquire_lock, clients, str_eq_of_ne id free named)
        (ap (λ q. id ∷ q) (s.waits (str_eq→eq l.holder free idle)), refl)
  | inr held ↦ rw (held, acquire_lock, clients, held) (refl, ground arith)
]

-- The head of the queue, if there is one.
abbrev pub first : List Bytes → Option Bytes
first [] = none
first (x ∷ xs) = some x

hand_over_lem :
    (q : List Bytes) (l : CachedLockInfo)
    → l.queue ≡ q
    → All (λ c. c ≢ free) q
    → IsSound (hand_over q l).0 × (clients (hand_over q l).0 ≡ q) × ((hand_over q l).1 ≡ first q)
unfolding hand_over clients
hand_over_lem [] l e h = (
  record { waits = λ _. e; asked = λ f. cc f; named = subst (All (λ c. c ≢ free)) (sym e) tt },
  rw (str_eq_refl free),
  refl,
)
hand_over_lem (x ∷ q) l e h = (
  record { waits = λ f. absurd (h.0 f); asked = λ f. cc f; named = h.1 },
  rw (str_eq_of_ne x free h.0),
  refl,
)

tail-clients : (l : CachedLockInfo) → IsSound l → tail (clients l) ≡ l.queue
unfolding clients
tail-clients l s = elim (Bool-cases (str_eq l.holder free)) [
  | inl idle ↦ rw idle (sym (s.waits (str_eq→eq l.holder free idle)))
  | inr held ↦ rw held
]

release_lock_lem :
    (l : CachedLockInfo)
    → IsSound l
    → IsSound (release_lock l).0
      × (clients (release_lock l).0 ≡ tail (clients l))
      × ((release_lock l).1 ≡ first (tail (clients l)))
unfolding release_lock
release_lock_lem l s =
    let (sound, c, told) = hand_over_lem l.queue l refl s.named in
    let e : tail (clients l) ≡ l.queue = tail-clients l s in
    (sound, c ∙ sym e, told ∙ ap first (sym e))

-- Every lock of the server is sound.
abbrev pub AllSound : Dict CachedLockInfo → Type 0
AllSound d = (lid : ℕ) (l : CachedLockInfo) → lookup lid d ≡ some l → IsSound l

-- The clients of a lock, none for a lock that was never seen.
abbrev pub turns_of : Option CachedLockInfo → List Bytes
turns_of none = []
turns_of (some l) = clients l

unfoldable pub turns : ℕ → Server → List Bytes
turns lid s = turns_of (lookup lid s.lock_list)

turns-insert :
    (lid : ℕ) (l : CachedLockInfo) (s : Server) (xs : List Bytes)
    → clients l ≡ xs
    → (j : ℕ)
    → turns j (record s { lock_list = insert lid l s.lock_list })
      ≡ (if j == lid then xs else turns j s)
unfolding turns
turns-insert lid l s xs e j = elim (Bool-cases (j == lid)) [
  | inl same ↦ rw (lookup-insert lid j l s.lock_list, same) e
  | inr other ↦ rw (lookup-insert lid j l s.lock_list, other)
]

pub AllSound-insert :
    (lid : ℕ) (l : CachedLockInfo) (d : Dict CachedLockInfo)
    → AllSound d
    → IsSound l
    → AllSound (insert lid l d)
AllSound-insert lid l d all s j k e = elim (Bool-cases (j == lid)) [
  | inl same ↦ subst IsSound (some_inj (rw (lookup-insert lid j l d, same) at e)) s
  | inr other ↦ all j k (rw (lookup-insert lid j l d, other) at e)
]

turns_unseen : (lid : ℕ) (s : Server) → lookup lid s.lock_list ≡ none → turns lid s ≡ []
unfolding turns
turns_unseen lid s e = rw e

turns_seen :
    (lid : ℕ) (s : Server) (l : CachedLockInfo)
    → lookup lid s.lock_list ≡ some l
    → turns lid s ≡ clients l
unfolding turns
turns_seen lid s l e = rw e

fresh-IsSound : (id : Bytes) → IsSound (record { holder = id; revoked = false; queue = [] })
fresh-IsSound id = record { waits = λ _. refl; asked = λ e. cc e; named = tt }

fresh-clients :
    (id : Bytes)
    → id ≢ free
    → clients (record { holder = id; revoked = false; queue = [] }) ≡ id ∷ []
unfolding clients
fresh-clients id h = rw (str_eq_of_ne id free h)

-- On a sound server, a request of a client that is not named as the mark of a free lock puts the
-- client behind all that have the lock or wait for it, and is granted exactly if there is none.
-- No other lock changes, and the server stays sound.
pub acquire_queues :
    (lid : ℕ) (id : Bytes) (s : Server)
    → AllSound s.lock_list
    → id ≢ free
    → AllSound (acquire lid id s).0.lock_list
      × ((acquire lid id s).1 ≡ (if length (turns lid s) == 0 then ok else retry))
      × ((j : ℕ)
          → turns j (acquire lid id s).0 ≡ (if j == lid then turns lid s ++ id ∷ [] else turns j s))
unfolding acquire
acquire_queues lid id s all named = elim (Option-cases (lookup lid s.lock_list)) [
  | inl unseen ↦
      let empty : turns lid s ≡ [] = turns_unseen lid s unseen in
      rw (unseen, acquire, empty)
        (
          AllSound-insert lid _ s.lock_list all (fresh-IsSound id),
          refl,
          turns-insert lid _ s (id ∷ []) (fresh-clients id named),
        )
  | inr (l, seen) ↦
      let same : turns lid s ≡ clients l = turns_seen lid s l seen in
      let (c, status) = acquire_lock-clients id l named (all lid l seen) in
      rw (seen, acquire, same)
        (
          AllSound-insert lid _ s.lock_list all (acquire_lock-IsSound id l named (all lid l seen)),
          status,
          turns-insert lid _ s (clients l ++ id ∷ []) c,
        )
]

-- A release on a sound server, of a lock that was seen before, takes the holder off, and the
-- next in the queue holds the lock and is told so, if there is one. No other lock changes, and
-- the server stays sound.
pub release_hands_over :
    (lid : ℕ) (id : Bytes) (s s' : Server) (told : Option Bytes)
    → AllSound s.lock_list
    → release lid id s ≡ some (s', told)
    → AllSound s'.lock_list
      × (told ≡ first (tail (turns lid s)))
      × ((j : ℕ) → turns j s' ≡ (if j == lid then tail (turns lid s) else turns j s))
unfolding release
release_hands_over lid id s s' told all e = elim (Option-cases (lookup lid s.lock_list)) [
  | inl unseen ↦ absurd (none_ne_some (rw (unseen, release) at e))
  | inr (l, seen) ↦
      let same : turns lid s ≡ clients l = turns_seen lid s l seen in
      let (sound, c, next) = release_lock_lem l (all lid l seen) in
      let f = some_inj (rw (seen, release) at e) in
      subst
        (λ r.
          AllSound r.0.lock_list
          × (r.1 ≡ first (tail (turns lid s)))
          × ((j : ℕ) → turns j r.0 ≡ (if j == lid then tail (turns lid s) else turns j s)))
        f
        (rw same (
          AllSound-insert lid _ s.lock_list all sound,
          next,
          turns-insert lid _ s (tail (clients l)) c,
        ))
]
