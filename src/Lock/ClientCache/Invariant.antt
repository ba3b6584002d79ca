-- ===== src/Lock/ClientCache/Invariant.antt =====
-- Each step of the threads of lock_client_cache.cc keeps the invariant of a cached lock.
use simple_distributed_files.Prelude.{
  ℕ, ◌+◌, ◌<◌, ◌≡◌, ◌⊎◌, refl, Bool, true, false, inr, List, [], ◌∷◌, ◌==◌, if◌then◌else◌, arith,
  All,
}
use simple_distributed_files.Lock.ClientCache.{
  count_in, begin_call, end_call, LockInfo, take_lock, release, revoke,
}
use simple_distributed_files.Lock.ClientCache.Threads.{
  Threads, First, by_acquire, by_revoke, recorded, Turn, enters, submitted, answered, wakes, takes,
  leaves, revokes, retries, take_out, is_in, turn, turns,
}

abbrev pub the_holder : ℕ → List ℕ
the_holder tid = if tid == 0 then [] else tid ∷ []

-- Who will give the lock back: a thread that waits or is inside, or, after a revocation that made
-- the record, the next one.
abbrev pub IsOwed : First → LockInfo → Type 0
IsOwed f l =
    ((0 < l.awaiting_lock) ⊎ ((l.holder == 0) ≡ false)) ⊎ ((f ≡ by_revoke) × (l.owned ≡ true))

pub record IsKept (f : First) (t : Threads) : Type 0 where
  pub counted : t.lock.awaiting_lock ≡ t.submits + t.calls + t.waits + t.wants
  pub alone : t.inside ≡ the_holder t.lock.holder
  pub used : (t.lock.holder == 0) ≡ false → t.lock.owned ≡ true
  pub wanted : 0 < t.wants → t.lock.owned ≡ true
  pub owed : t.lock.revoked ≡ true → IsOwed f t.lock
  pub asked : t.lock.acquiring ≡ true → (0 < t.lock.awaiting_lock) × (t.lock.owned ≡ false)

-- The id of a thread is not FREE.
abbrev pub IsThread : Turn → Type 0
IsThread enters = Unit
IsThread submitted = Unit
IsThread (answered ok) = Unit
IsThread (wakes tid) = (tid == 0) ≡ false
IsThread (takes tid) = (tid == 0) ≡ false
IsThread (leaves tid) = Unit
IsThread revokes = Unit
IsThread retries = Unit

enters-IsKept : (f : First) (t : Threads) → IsKept f t → IsKept f (turn enters t)
unfolding turn count_in
enters-IsKept f t k = record {
  counted = ground (arith, k.counted);
  alone = ground (arith, k.alone);
  used = ground (arith, k.used);
  wanted = ground (arith, k.wanted);
  owed = ground (arith, k.owed);
  asked = ground (arith, k.asked);
}

submitted-IsKept : (f : First) (t : Threads) → IsKept f t → IsKept f (turn submitted t)
unfolding turn begin_call
submitted-IsKept f t k = record {
  counted = ground (arith, k.counted);
  alone = ground (arith, k.alone);
  used = ground (arith, k.used);
  wanted = ground (arith, k.wanted);
  owed = ground (arith, k.owed);
  asked = ground (arith, k.asked, k.counted);
}

answered-IsKept :
    (f : First) (ok : Bool) (t : Threads) → IsKept f t → IsKept f (turn (answered ok) t)
unfolding turn end_call
answered-IsKept f ok t k = record {
  counted = ground (arith, k.counted);
  alone = ground (arith, k.alone);
  used = ground (arith, k.used);
  wanted = ground (arith, k.wanted);
  owed = ground (arith, k.owed);
  asked = ground (arith, k.asked, k.counted);
}

wakes-IsKept :
    (f : First) (tid : ℕ) (t : Threads)
    → (tid == 0) ≡ false
    → IsKept f t
    → IsKept f (turn (wakes tid) t)
unfolding turn take_lock
wakes-IsKept f tid t h k = record {
  counted = ground (arith, k.counted);
  alone = ground (arith, h, k.alone);
  used = ground (arith, k.used);
  wanted = ground (arith, k.wanted);
  owed = ground (arith, h, k.owed);
  asked = ground (arith, k.asked, k.counted);
}

takes-IsKept :
    (f : First) (tid : ℕ) (t : Threads)
    → (tid == 0) ≡ false
    → IsKept f t
    → IsKept f (turn (takes tid) t)
unfolding turn take_lock
takes-IsKept f tid t h k = record {
  counted = ground (arith, k.counted);
  alone = ground (arith, h, k.alone);
  used = ground (arith, k.used, k.wanted);
  wanted = ground (arith, k.wanted);
  owed = ground (arith, h, k.owed);
  asked = ground (arith, k.asked, k.counted, k.wanted);
}

take_out-the_holder :
    (tid holder : ℕ) → is_in tid (the_holder holder) ≡ true → take_out tid (the_holder holder) ≡ []
take_out-the_holder tid holder e = ground (arith, e)

pub left_alone :
    (f : First) (tid : ℕ) (t : Threads)
    → IsKept f t
    → is_in tid t.inside ≡ true
    → take_out tid t.inside ≡ []
left_alone f tid t k e = rw k.alone (take_out-the_holder tid t.lock.holder (rw k.alone at e))

leaves-IsKept : (f : First) (tid : ℕ) (t : Threads) → IsKept f t → IsKept f (turn (leaves tid) t)
unfolding turn release
leaves-IsKept f tid t k = record {
  counted = ground (arith, k.counted);
  alone = ground (arith, k.alone, left_alone f tid t k);
  used = ground (arith, k.used);
  wanted = ground (arith, k.wanted, k.counted);
  owed = ground (arith, k.owed);
  asked = ground (arith, k.asked, k.counted);
}

revokes-IsKept : (f : First) (t : Threads) → IsKept f t → IsKept f (turn revokes t)
unfolding turn revoke
revokes-IsKept f t k = record {
  counted = ground (arith, k.counted);
  alone = ground (arith, k.alone);
  used = ground (arith, k.used);
  wanted = ground (arith, k.wanted, k.counted);
  owed = ground (arith, k.owed, k.asked);
  asked = ground (arith, k.asked, k.counted);
}

retries-IsKept : (f : First) (t : Threads) → IsKept f t → IsKept f (turn retries t)
unfolding turn
retries-IsKept f t k = record {
  counted = k.counted;
  alone = k.alone;
  used = λ h. refl;
  wanted = λ h. refl;
  owed = ground (arith, k.owed);
  asked = λ h. cc;
}

turn-IsKept : (f : First) (e : Turn) (t : Threads) → IsThread e → IsKept f t → IsKept f (turn e t)
turn-IsKept f enters t h k = enters-IsKept f t k
turn-IsKept f submitted t h k = submitted-IsKept f t k
turn-IsKept f (answered ok) t h k = answered-IsKept f ok t k
turn-IsKept f (wakes tid) t h k = wakes-IsKept f tid t h k
turn-IsKept f (takes tid) t h k = takes-IsKept f tid t h k
turn-IsKept f (leaves tid) t h k = leaves-IsKept f tid t k
turn-IsKept f revokes t h k = revokes-IsKept f t k
turn-IsKept f retries t h k = retries-IsKept f t k

pub turns-IsKept :
    (f : First) (es : List Turn) (t : Threads)
    → All IsThread es
    → IsKept f t
    → IsKept f (turns es t)
unfolding turns
turns-IsKept f [] t h k = k
turns-IsKept f (e ∷ es) t h k = turns-IsKept f es (turn e t) h.1 (turn-IsKept f e t h.0 k)

pub recorded-IsKept : (f : First) → IsKept f (recorded f)
unfolding recorded
recorded-IsKept by_acquire = record {
  counted = refl;
  alone = refl;
  used = λ h. cc;
  wanted = λ h. absurd (omega (arith, h));
  owed = λ h. cc;
  asked = λ h. cc;
}
recorded-IsKept by_revoke = record {
  counted = refl;
  alone = refl;
  used = λ h. refl;
  wanted = λ h. refl;
  owed = λ h. inr (refl, refl);
  asked = λ h. cc;
}
