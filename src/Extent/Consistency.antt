-- ===== src/Extent/Consistency.antt =====
-- Many clients behave as one: over any history that the locks allow, a read returns what was
-- written last, by whichever client.
use simple_distributed_files.Prelude.{
  ℕ, ◌≡◌, refl, sym, ap, ap₂, ◌∙◌, subst, inl, inr, true, List, [], ◌∷◌, Option, none, some, arith,
  Bytes, lookup, ◌==◌, ==_iff, if◌then◌else◌, Option-cases, Bool-cases, some_inj, none_ne_some,
}
use simple_distributed_files.Extent.Server.{Times}
use simple_distributed_files.Extent.Client.{World, get, getattr, put, flush}
use simple_distributed_files.Extent.Cache.{seen, IsCoherent, if_same}
use simple_distributed_files.Extent.Transparent.{
  get_transparent, getattr_transparent, put_transparent, flush_durable,
}
use simple_distributed_files.Extent.Sharing.{
  Shared, view, put_back, give, Step, gets, getattrs, puts, hands, grants, holds, is_free,
  with_text, run_steps, Files, last_written, IsShared, text, Touches, get-Touches, getattr-Touches,
  put-Touches, flush-Touches,
}
use simple_distributed_files.Extent.Handover.{
  uncached_elsewhere, text_held, step-IsShared, step_text, give-IsShared, give_text,
}

free_ne : (o : Option ℕ) (d : ℕ) → is_free o ≡ true → o ≡ some d → ⊥
free_ne o d h e = ground (arith, h, e)

-- What the induction over a history needs: a state of shared files that agrees with the texts.
Agrees : Shared → Files → Type 0
Agrees s f = IsShared s × ((j : ℕ) → text j s ≡ f j)

step-Agrees :
    (c id : ℕ) (s : Shared) (w' : World) (f : Files) (b : Bytes)
    → Agrees s f
    → holds c id s ≡ true
    → Touches id (view c s) w'
    → IsCoherent w'
    → seen id w' ≡ b
    → Agrees (put_back c w' s) (λ j. if j == id then b else f j)
unfolding Agrees
step-Agrees c id s w' f b (v, e) h t coherent now = (
  step-IsShared c id s w' v h t coherent,
  λ j. step_text c id s w' v h t j ∙ ap₂ (λ x y. if j == id then x else y) now (e j),
)

-- A step that leaves the file's text as it was.
still-Agrees :
    (c id : ℕ) (s : Shared) (w' : World) (f : Files)
    → Agrees s f
    → holds c id s ≡ true
    → Touches id (view c s) w'
    → IsCoherent w'
    → seen id w' ≡ seen id (view c s)
    → Agrees (put_back c w' s) f
unfolding Agrees
still-Agrees c id s w' f (v, e) h t coherent same =
    let (v', e') =
      step-Agrees c id s w' f (f id) (v, e) h t coherent (same ∙ sym (text_held c id s h) ∙ e id) in
    (v', λ j. e' j ∙ if_same f id j (f id) refl)

give-Agrees :
    (c id : ℕ) (s : Shared) (f : Files)
    → Agrees s f
    → ((d : ℕ) → lookup id (s.caches d) ≡ none)
    → Agrees (give id c s) f
unfolding Agrees
give-Agrees c id s f (v, e) idle =
    (give-IsShared c id s v idle, λ j. give_text c id s v idle j ∙ e j)

get-Agrees :
    (c id now now' : ℕ) (s : Shared) (f : Files)
    → Agrees s f
    → holds c id s ≡ true
    → ((get id now now' (view c s)).2 ≡ f id)
      × Agrees (put_back c (get id now now' (view c s)).0 s) f
unfolding Agrees
get-Agrees c id now now' s f (v, e) h =
    let (got, (coherent, same)) = get_transparent id now now' (view c s) (v.coherent c) in
    (
      got ∙ sym (text_held c id s h) ∙ e id,
      still-Agrees c id s (get id now now' (view c s)).0 f (v, e) h
          (get-Touches id now now' (view c s)) coherent (same id),
    )

getattr-Agrees :
    (c id now : ℕ) (s : Shared) (f : Files)
    → Agrees s f
    → holds c id s ≡ true
    → Agrees (put_back c (getattr id now (view c s)).0 s) f
unfolding Agrees
getattr-Agrees c id now s f (v, e) h =
    let (coherent, same) = getattr_transparent id now (view c s) (v.coherent c) in
    still-Agrees c id s (getattr id now (view c s)).0 f (v, e) h (getattr-Touches id now (view c s))
      coherent (same id)

put-Agrees :
    (c id : ℕ) (buf : Bytes) (now : ℕ) (t : Times) (s : Shared) (f : Files)
    → Agrees s f
    → holds c id s ≡ true
    → Agrees (put_back c (put id buf now t (view c s)).0 s) (λ j. if j == id then buf else f j)
unfolding Agrees
put-Agrees c id buf now t s f (v, e) h =
    let (coherent, changed) = put_transparent id buf now t (view c s) (v.coherent c) in
    step-Agrees c id s (put id buf now t (view c s)).0 f buf (v, e) h
      (put-Touches id buf now t (view c s)) coherent (changed id ∙ rw ((==_iff id id).1 refl))

-- After the flush nobody caches the file.
flushed_idle :
    (c id : ℕ) (t : Times) (s : Shared) (d : ℕ)
    → IsShared s
    → holds c id s ≡ true
    → lookup id ((put_back c (flush id t (view c s)).0 s).caches d) ≡ none
flushed_idle c id t s d v h = elim (Bool-cases (d == c)) [
  | inl same ↦ rw same (flush_durable id t (view c s) (v.coherent c)).2
  | inr other ↦ rw other (uncached_elsewhere c d id s v h other)
]

hand-Agrees :
    (c id : ℕ) (t : Times) (c' : ℕ) (s : Shared) (f : Files)
    → Agrees s f
    → holds c id s ≡ true
    → Agrees (give id c' (put_back c (flush id t (view c s)).0 s)) f
unfolding Agrees
hand-Agrees c id t c' s f (v, e) h =
    let ((coherent, same), durable, gone) = flush_durable id t (view c s) (v.coherent c) in
    give-Agrees c' id (put_back c (flush id t (view c s)).0 s) f
      (still-Agrees c id s (flush id t (view c s)).0 f (v, e) h (flush-Touches id t (view c s))
        coherent (same id))
      (λ d. flushed_idle c id t s d v h)

grant-Agrees :
    (c id : ℕ) (s : Shared) (f : Files)
    → Agrees s f
    → is_free (s.holder id) ≡ true
    → Agrees (give id c s) f
unfolding Agrees
grant-Agrees c id s f (v, e) free =
    give-Agrees c id s f (v, e)
      (λ d. elim (Option-cases (lookup id (s.caches d))) [
        | inl n ↦ n
        | inr (x, hit) ↦ absurd (free_ne (s.holder id) d free (v.owned d id x hit))
      ])

with_text-some :
    (b : Bytes) (m : Option (Shared × List Bytes)) (s' : Shared) (texts : List Bytes)
    → with_text b m ≡ some (s', texts)
    → (ts : List Bytes) × (m ≡ some (s', ts)) × (texts ≡ b ∷ ts)
with_text-some b none s' texts h = absurd (none_ne_some h)
with_text-some b (some (s, ts)) s' texts h = (
  ts,
  ap (λ (x : Shared). some (x, ts)) (ap (λ (p : Shared × List Bytes). p.0) (some_inj h)),
  sym (ap (λ (p : Shared × List Bytes). p.1) (some_inj h)),
)

-- From shared files whose texts are given, over any history that the locks allow, each read
-- returns what was written last, by whichever client; and the files are shared again.
pub run_steps-last_written :
    (os : List Step) (s s' : Shared) (f : Files) (texts : List Bytes)
    → IsShared s
    → ((j : ℕ) → text j s ≡ f j)
    → run_steps os s ≡ some (s', texts)
    → IsShared s' × (texts ≡ last_written os f)
unfolding run_steps last_written Agrees
run_steps-last_written [] s s' f texts v e r =
    let q = some_inj r in
    (
      subst IsShared (ap (λ (p : Shared × List Bytes). p.0) q) v,
      sym (ap (λ (p : Shared × List Bytes). p.1) q),
    )
run_steps-last_written (gets c id now now' ∷ os) s s' f texts v e r =
    elim (Bool-cases (holds c id s)) [
      | inr gone ↦ absurd (none_ne_some (rw (gone, run_steps) at r))
      | inl h ↦
          let (got, (v', e')) = get-Agrees c id now now' s f (v, e) h in
          let (ts, r', e'') =
            with_text-some (get id now now' (view c s)).2 _ s' texts (rw (h, run_steps) at r) in
          let (v'', rest) = run_steps-last_written os _ s' f ts v' e' r' in
          (v'', e'' ∙ ap₂ ◌∷◌ got rest)
    ]
run_steps-last_written (getattrs c id now ∷ os) s s' f texts v e r =
    elim (Bool-cases (holds c id s)) [
      | inr gone ↦ absurd (none_ne_some (rw (gone, run_steps) at r))
      | inl h ↦
          let (v', e') = getattr-Agrees c id now s f (v, e) h in
          run_steps-last_written os _ s' f texts v' e' (rw (h, run_steps) at r)
    ]
run_steps-last_written (puts c id buf now t ∷ os) s s' f texts v e r =
    elim (Bool-cases (holds c id s)) [
      | inr gone ↦ absurd (none_ne_some (rw (gone, run_steps) at r))
      | inl h ↦
          let (v', e') = put-Agrees c id buf now t s f (v, e) h in
          run_steps-last_written os _ s' _ texts v' e' (rw (h, run_steps) at r)
    ]
run_steps-last_written (hands c id t c' ∷ os) s s' f texts v e r =
    elim (Bool-cases (holds c id s)) [
      | inr gone ↦ absurd (none_ne_some (rw (gone, run_steps) at r))
      | inl h ↦
          let (v', e') = hand-Agrees c id t c' s f (v, e) h in
          run_steps-last_written os _ s' f texts v' e' (rw (h, run_steps) at r)
    ]
run_steps-last_written (grants c id ∷ os) s s' f texts v e r =
    elim (Bool-cases (is_free (s.holder id))) [
      | inr held ↦ absurd (none_ne_some (rw (held, run_steps) at r))
      | inl free ↦
          let (v', e') = grant-Agrees c id s f (v, e) free in
          run_steps-last_written os _ s' f texts v' e' (rw (free, run_steps) at r)
    ]
