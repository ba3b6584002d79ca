-- ===== src/Lock/Mutex.antt =====
-- The plain lock server (lock_server.cc) is a mutex for each lock.
use simple_distributed_files.Prelude.{
  ℕ, ◌≡◌, refl, sym, ap, ◌∙◌, Bool, false, List, [], ◌∷◌, Option, none, some, ◌==◌, ==_iff,
  if◌then◌else◌, Dict, lookup, insert, lookup-insert, Bool-cases, Option-cases, inl, inr, fun_ext,
  All,
}
use simple_distributed_files.Lock.Plain.{
  LockInfo, Server, unlocked, acquire, release, Request, acquires, releases, with_status, serve,
  serve_all,
}

-- The specification of one lock: nobody has asked for it yet, it is free, or a client has it.
pub data Owner : Type 0 where
  unknown free : Owner
  owned : ℕ → Owner

abbrev pub Owners : Type 0
Owners = ℕ → Owner

abbrev pub set_owner : ℕ → Owner → Owners → Owners
set_owner lid o f j = if j == lid then o else f j

-- A client gets a lock that no client has; `none` is a wait.
abbrev pub take_by : ℕ → ℕ → Owners → Owner → Option Owners
take_by clt lid f unknown = some (set_owner lid (owned clt) f)
take_by clt lid f free = some (set_owner lid (owned clt) f)
take_by clt lid f (owned c) = none

-- The owner gives a lock back, and nobody else does.
abbrev pub give_by : ℕ → ℕ → Owners → Owner → Option Owners
give_by clt lid f unknown = none
give_by clt lid f free = some f
give_by clt lid f (owned c) = some (if c == clt then set_owner lid free f else f)

unfoldable pub own : Request → Owners → Option Owners
own (acquires clt lid) f = take_by clt lid f (f lid)
own (releases clt lid) f = give_by clt lid f (f lid)

unfoldable pub own_all : List Request → Owners → Option Owners
own_all [] f = some f
own_all (q ∷ qs) f = elim (own q f) [ none ↦ none | some f' ↦ own_all qs f' ]

abbrev pub owner_of : Option LockInfo → Owner
owner_of none = unknown
owner_of (some l) = if l.clt == unlocked then free else owned l.clt

abbrev pub owners : Server → Owners
owners s j = owner_of (lookup j s.lock_list)

abbrev pub IsClient : Request → Type 0
IsClient (acquires clt lid) = (clt == unlocked) ≡ false
IsClient (releases clt lid) = (clt == unlocked) ≡ false

abbrev pub seen_owners : Option Server → Option Owners
seen_owners none = none
seen_owners (some s) = some (owners s)

abbrev state_only : Option (Server × Bool) → Option Server
state_only none = none
state_only (some (s, st)) = some s

inserted :
    (lid : ℕ) (l : LockInfo) (o : Owner) (d : Dict LockInfo)
    → owner_of (some l) ≡ o
    → (λ j. owner_of (lookup j (insert lid l d))) ≡ set_owner lid o (λ j. owner_of (lookup j d))
inserted lid l o d e = fun_ext (λ j. elim (Bool-cases (j == lid)) [
  | inl here ↦ ap owner_of (lookup-insert lid j l d) ∙ rw here e
  | inr there ↦ ap owner_of (lookup-insert lid j l d) ∙ rw there refl
])

acquire-own :
    (clt lid : ℕ) (s : Server)
    → (clt == unlocked) ≡ false
    → seen_owners (acquire clt lid s) ≡ take_by clt lid (owners s) (owners s lid)
unfolding acquire
acquire-own clt lid s h = elim (Option-cases (lookup lid s.lock_list)) [
  | inl miss ↦ rw (miss, acquire) (ap some (inserted lid _ (owned clt) s.lock_list (rw h refl)))
  | inr (l, hit) ↦ elim (Bool-cases (l.clt == unlocked)) [
    | inl idle ↦
        rw (hit, acquire, idle) (ap some (inserted lid _ (owned clt) s.lock_list (rw h refl)))
    | inr busy ↦ rw (hit, acquire, busy) refl
  ]
]

release-own :
    (clt lid : ℕ) (s : Server)
    → (clt == unlocked) ≡ false
    → seen_owners (state_only (release clt lid s)) ≡ give_by clt lid (owners s) (owners s lid)
unfolding release
release-own clt lid s h = elim (Option-cases (lookup lid s.lock_list)) [
  | inl miss ↦ rw (miss, release) refl
  | inr (l, hit) ↦ elim (Bool-cases (l.clt == clt)) [
    | inl same ↦
        let client : (l.clt == unlocked) ≡ false =
          ap (λ c. c == unlocked) ((==_iff l.clt clt).0 same) ∙ h in
        rw (hit, release, same, client, same) (ap some (inserted lid _ free s.lock_list refl))
    | inr other ↦ elim (Bool-cases (l.clt == unlocked)) [
      | inl idle ↦ rw (hit, release, other, idle) refl
      | inr busy ↦ rw (hit, release, other, busy, other) refl
    ]
  ]
]

with_status_only : (o : Option Server) → state_only (with_status o) ≡ o
with_status_only none = refl
with_status_only (some s) = refl

serve-own :
    (q : Request) (s : Server)
    → IsClient q
    → seen_owners (state_only (serve q s)) ≡ own q (owners s)
unfolding serve own
serve-own (acquires clt lid) s h =
    ap seen_owners (with_status_only (acquire clt lid s)) ∙ acquire-own clt lid s h
serve-own (releases clt lid) s h = release-own clt lid s h

-- Over any history of requests by clients whose numbers are not UNLOCKED, the server is a mutex for
-- each lock: it gets on exactly as far as the specification does, in which a client waits for a
-- lock while another has it, only the owner of a lock gives it back, and a release of a lock that
-- nobody ever asked for ends the server; and then the locks have the same owners.
pub serve_all-own_all :
    (qs : List Request) (s : Server)
    → All IsClient qs
    → seen_owners (serve_all qs s) ≡ own_all qs (owners s)
unfolding serve_all own_all
serve_all-own_all [] s h = refl
serve_all-own_all (q ∷ qs) s h = elim (Option-cases (serve q s)) [
  | inl stuck ↦
      let n : own q (owners s) ≡ none =
        sym (serve-own q s h.0) ∙ ap (λ x. seen_owners (state_only x)) stuck in
      rw (stuck, serve_all, n, own_all) refl
  | inr (p, goes) ↦
      let n : own q (owners s) ≡ some (owners p.0) =
        sym (serve-own q s h.0) ∙ ap (λ x. seen_owners (state_only x)) goes in
      rw (goes, serve_all, n, own_all) (serve_all-own_all qs p.0 h.1)
]
