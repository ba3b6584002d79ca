-- ===== src/Lock/Enforcer.antt =====
-- The threads `enforcer` and `revoker`: every client that keeps others waiting is asked, once.
use simple_distributed_files.Prelude.{
  ℕ, ◌+◌, ◌≤◌, ◌↔◌, subst, ◌≡◌, refl, ap, ◌∙◌, ◌≢◌, inl, inr, true, false, List, [], ◌∷◌, ◌++◌,
  Option, none, some, arith, if◌then◌else◌, Dict, lookup, Distinct, Bool-cases, All, All-Has,
  append-nil, Has, ap₂, Bool, not, ◌&&◌, length, sym, Bytes, ◌==◌, none_ne_some, some_inj, ==_iff,
}
use simple_distributed_files.Lock.ServerCache.{
  CachedLockInfo, RevokeRequest, Server, is_due, enforce_locks, enforcer,
}

abbrev pub mark : CachedLockInfo → CachedLockInfo
mark l = if is_due l then record l { revoked = true } else l

abbrev pub marked : Option CachedLockInfo → Option CachedLockInfo
marked none = none
marked (some l) = some (mark l)

enforce-lookup :
    (d : Dict CachedLockInfo) (j : ℕ) → lookup j (enforce_locks d).0 ≡ marked (lookup j d)
unfolding enforce_locks
enforce-lookup [] j = refl
enforce-lookup ((lid, l) ∷ d) j = ground (arith, enforce-lookup d j)

mark-not_due : (l : CachedLockInfo) → is_due (mark l) ≡ false
unfolding is_due
mark-not_due l = ground arith

enforce_twice : (d : Dict CachedLockInfo) → (enforce_locks (enforce_locks d).0).1 ≡ []
unfolding enforce_locks
enforce_twice [] = refl
enforce_twice ((lid, l) ∷ d) = ground (arith, enforce_twice d, mark-not_due l)

-- The request asks the holder of a lock for which clients wait.
abbrev pub IsFor : Dict CachedLockInfo → RevokeRequest → Type 0
IsFor d r =
    (l : CachedLockInfo) × (lookup r.lid d ≡ some l)
    × (r.holder ≡ l.holder)
    × (l.queue ≢ [])
    × (l.revoked ≡ false)

IsFor-cons :
    (lid : ℕ) (l : CachedLockInfo) (d : Dict CachedLockInfo) (rs : List RevokeRequest)
    → lookup lid d ≡ none
    → All (IsFor d) rs
    → All (IsFor ((lid, l) ∷ d)) rs
IsFor-cons lid l d [] new h = tt
IsFor-cons lid l d (r ∷ rs) new h =
    let (k, seen, holder, waits, unasked) = h.0 in
    ((k, ground (arith, seen, new), holder, waits, unasked), IsFor-cons lid l d rs new h.1)

due_facts : (l : CachedLockInfo) → is_due l ≡ true → (l.queue ≢ []) × (l.revoked ≡ false)
unfolding is_due
due_facts l h = (λ e. ground (arith, e, h), ground arith)

enforce-IsFor : (d : Dict CachedLockInfo) → Distinct d → All (IsFor d) (enforce_locks d).1
unfolding enforce_locks
enforce-IsFor [] h = tt
enforce-IsFor ((lid, l) ∷ d) h = elim (Bool-cases (is_due l)) [
  | inl due ↦
      let (waits, unasked) = due_facts l due in
      rw (due, enforce_locks)
        (
          (l, ground arith, refl, waits, unasked),
          IsFor-cons lid l d (enforce_locks d).1 h.0 (enforce-IsFor d h.1),
        )
  | inr idle ↦
      rw (idle, enforce_locks) (IsFor-cons lid l d (enforce_locks d).1 h.0 (enforce-IsFor d h.1))
]

abbrev request_of : ℕ → CachedLockInfo → RevokeRequest
request_of lid l = record { holder = l.holder; lid = lid }

due_queue :
    (q : List Bytes) (asked : Bool)
    → q ≢ []
    → asked ≡ false
    → (not (length q == 0) && not asked) ≡ true
due_queue [] asked waits unasked = absurd (waits refl)
due_queue (x ∷ q) asked waits unasked = ground (arith, unasked)

due_is_due : (l : CachedLockInfo) → l.queue ≢ [] → l.revoked ≡ false → is_due l ≡ true
unfolding is_due
due_is_due l waits unasked = due_queue l.queue l.revoked waits unasked

enforce-Has :
    (d : Dict CachedLockInfo) (lid : ℕ) (l : CachedLockInfo)
    → lookup lid d ≡ some l
    → is_due l ≡ true
    → Has (request_of lid l) (enforce_locks d).1
unfolding enforce_locks
enforce-Has [] lid l h due = absurd (none_ne_some h)
enforce-Has ((j, k) ∷ d) lid l h due = elim (Bool-cases (lid == j)) [
  | inl here ↦
      let e : k ≡ l = some_inj (rw here at h) in
      let k_due : is_due k ≡ true = ap is_due e ∙ due in
      rw (k_due, enforce_locks) (inl (ap₂ request_of ((==_iff lid j).0 here) (sym e)))
  | inr there ↦ elim (Bool-cases (is_due k)) [
    | inl k_due ↦ rw (k_due, enforce_locks) (inr (enforce-Has d lid l (rw there at h) due))
    | inr idle ↦ rw (idle, enforce_locks) (enforce-Has d lid l (rw there at h) due)
  ]
]

due_asked : (d : Dict CachedLockInfo) (r : RevokeRequest) → IsFor d r → Has r (enforce_locks d).1
due_asked d r (l, seen, holder, waits, unasked) =
    let h = enforce-Has d r.lid l seen (due_is_due l waits unasked) in
    subst (λ x. Has x (enforce_locks d).1)
      (ap (λ x. record { holder = x; lid = r.lid }) (sym holder)) h

-- How many of the requests are for a lock.
unfoldable pub times_asked : ℕ → List RevokeRequest → ℕ
times_asked lid [] = 0
times_asked lid (r ∷ rs) = let rest = times_asked lid rs in if lid == r.lid then rest + 1 else rest

absent-times_asked :
    (d : Dict CachedLockInfo) (j : ℕ) → lookup j d ≡ none → times_asked j (enforce_locks d).1 ≡ 0
unfolding enforce_locks times_asked
absent-times_asked [] j h = refl
absent-times_asked ((lid, l) ∷ d) j h =
    let other : (j == lid) ≡ false = ground (arith, h) in
    ground (arith, other, absent-times_asked d j (rw other at h))

once_asked : (d : Dict CachedLockInfo) (j : ℕ) → Distinct d → times_asked j (enforce_locks d).1 ≤ 1
unfolding enforce_locks times_asked
once_asked [] j h = omega arith
once_asked ((lid, l) ∷ d) j h = elim (Bool-cases (j == lid)) [
  | inl same ↦
      let e : j ≡ lid = (==_iff j lid).0 same in
      let none_else : times_asked j (enforce_locks d).1 ≡ 0 =
        absent-times_asked d j (ap (λ x. lookup x d) e ∙ h.0) in
      ground (arith, none_else)
  | inr other ↦ ground (arith, other, once_asked d j h.1)
]

-- Over locks with distinct numbers, a pass of the enforcer marks each lock whose clients wait and
-- leaves the others as they were. What it puts behind the requests that are queued asks exactly the
-- holders of such locks that were not asked before, each lock at most once; and a second pass asks
-- nobody.
pub enforcer_asks :
    (s : Server)
    → Distinct s.lock_list
    → ((j : ℕ) → lookup j (enforcer s).lock_list ≡ marked (lookup j s.lock_list))
      × ((requests : List RevokeRequest) × ((enforcer s).revoke_queue ≡ s.revoke_queue ++ requests)
          × ((r : RevokeRequest) → Has r requests ↔ IsFor s.lock_list r)
          × ((j : ℕ) → times_asked j requests ≤ 1))
      × ((enforcer (enforcer s)).revoke_queue ≡ (enforcer s).revoke_queue)
unfolding enforcer
enforcer_asks s h = (
  enforce-lookup s.lock_list,
  (
    (enforce_locks s.lock_list).1,
    refl,
    (λ r. (
      All-Has (IsFor s.lock_list) r (enforce_locks s.lock_list).1 (enforce-IsFor s.lock_list h),
      due_asked s.lock_list r,
    )),
    (λ j. once_asked s.lock_list j h),
  ),
  ap (◌++◌ (s.revoke_queue ++ (enforce_locks s.lock_list).1)) (enforce_twice s.lock_list)
      ∙ append-nil (s.revoke_queue ++ (enforce_locks s.lock_list).1),
)
