-- ===== src/Lock/History.antt =====
-- The caching server over a whole history of requests, against a queue for each lock; and what a
-- release by a client that does not hold the lock does.
use simple_distributed_files.Prelude.{
  ℕ, ◌≡◌, refl, ap, ◌∙◌, subst, ◌≢◌, inl, inr, false, List, [], ◌∷◌, ◌++◌, Option, none, some,
  arith, Bytes, str_eq_refl, if◌then◌else◌, ◌==◌, lookup, insert, lookup-insert, Option-cases,
  none_ne_some, some_inj, then_some, All, fun_ext,
}
use simple_distributed_files.Lock.ServerCache.{
  free, CachedLockInfo, Server, ok, acquire_lock, acquire, hand_over, release_lock, release,
}
use simple_distributed_files.Lock.Queueing.{
  AllSound, turns, tail, acquire_queues, release_hands_over,
}

pub data Request : Type 0 where
  acquires : ℕ → Bytes → Request
  releases : ℕ → Bytes → Request

unfoldable pub serve : Request → Server → Option Server
serve (acquires lid id) s = some (acquire lid id s).0
serve (releases lid id) s = elim (release lid id s) [ none ↦ none | some (s', told) ↦ some s' ]

unfoldable pub serve_all : List Request → Server → Option Server
serve_all [] s = some s
serve_all (r ∷ rs) s = elim (serve r s) [ none ↦ none | some s' ↦ serve_all rs s' ]

-- The specification: a queue of clients for each lock.
abbrev pub Queues : Type 0
Queues = ℕ → List Bytes

abbrev pub queue_step : Request → Queues → Queues
queue_step (acquires lid id) q j = if j == lid then q lid ++ id ∷ [] else q j
queue_step (releases lid id) q j = if j == lid then tail (q lid) else q j

unfoldable pub queue_run : List Request → Queues → Queues
queue_run [] q = q
queue_run (r ∷ rs) q = queue_run rs (queue_step r q)

abbrev pub IsNamed : Request → Type 0
IsNamed (acquires lid id) = id ≢ free
IsNamed (releases lid id) = Unit

abbrev Refines : Request → Server → Server → Type 0
Refines r s s' = AllSound s'.lock_list × ((λ j. turns j s') ≡ queue_step r (λ j. turns j s))

serve-Refines :
    (r : Request) (s s' : Server)
    → AllSound s.lock_list
    → IsNamed r
    → serve r s ≡ some s'
    → Refines r s s'
unfolding serve
serve-Refines (acquires lid id) s s' all named e =
    let (sound, status, q) = acquire_queues lid id s all named in
    subst (Refines (acquires lid id) s) (some_inj e) (sound, fun_ext q)
serve-Refines (releases lid id) s s' all named e = elim (Option-cases (release lid id s)) [
  | inl gone ↦ absurd (none_ne_some (rw (gone, serve) at e))
  | inr (p, done) ↦
      let (sound, told, q) = release_hands_over lid id s p.0 p.1 all done in
      subst (Refines (releases lid id) s) (some_inj (rw (done, serve) at e)) (sound, fun_ext q)
]

-- From a sound server, over any history of requests that it survives and in which no client is
-- named as the mark of a free lock, each lock's clients are those of a queue: every client
-- stands behind those that asked before it, and each release serves one. The server stays sound.
pub serve_all-queue_run :
    (rs : List Request) (s s' : Server)
    → AllSound s.lock_list
    → All IsNamed rs
    → serve_all rs s ≡ some s'
    → AllSound s'.lock_list × ((λ j. turns j s') ≡ queue_run rs (λ j. turns j s))
unfolding serve_all queue_run
serve_all-queue_run [] s s' all named e =
    subst (λ x. AllSound x.lock_list × (◌≡◌ {A = Queues} (λ j. turns j x) (λ j. turns j s)))
      (some_inj e) (all, refl)
serve_all-queue_run (r ∷ rs) s s' all named e =
    let (x, step, rest) = then_some (serve r s) (serve_all rs) e in
    let (sound, q) = serve-Refines r s x all named.0 step in
    let (sound', q') = serve_all-queue_run rs x s' sound named.1 rest in
    (sound', q' ∙ ap (queue_run rs) q)

-- `release` does not ask who calls: a client that does not hold a lock, for which nobody waits,
-- frees it, and is then granted it, while the holder has not given it back.
stray_release :
    (lid : ℕ) (id : Bytes) (s : Server) (l : CachedLockInfo)
    → lookup lid s.lock_list ≡ some l
    → l.queue ≡ []
    → l.holder ≢ id
    → (s' : Server) × (release lid id s ≡ some (s', none)) × ((acquire lid id s').1 ≡ ok)
unfolding release acquire acquire_lock release_lock hand_over
stray_release lid id s l seen alone other =
    let idle : CachedLockInfo = record l { revoked = false; holder = free } in
    (
      record s { lock_list = insert lid idle s.lock_list },
      ground (arith, seen, alone),
      ground (arith, lookup-insert lid lid idle s.lock_list, str_eq_refl free),
    )
