-- ===== src/Extent/History.antt =====
-- The client over a whole history of operations, against files that are just texts; and `remove`,
-- which works only on a file that is cached.
use simple_distributed_files.Prelude.{
  ℕ, ◌≡◌, refl, ap, ◌∙◌, inl, inr, List, [], ◌∷◌, Option, none, some, Bytes, lookup, ◌==◌,
  if◌then◌else◌, Bool-cases,
}
use simple_distributed_files.Extent.Server.{Status, ok, Times, stored, Extents}
use simple_distributed_files.Extent.Server
use simple_distributed_files.Extent.Client.{World, CachedExtent, get, getattr, put, remove, flush}
use simple_distributed_files.Extent.Cache.{or_empty, seen, IsCoherent, stored-remove}
use simple_distributed_files.Extent.Transparent.{
  get_transparent, getattr_transparent, put_transparent, flush_durable, seen-erase,
}

pub data Op : Type 0 where
  gets : ℕ → ℕ → ℕ → Op
  getattrs : ℕ → ℕ → Op
  puts : ℕ → Bytes → ℕ → Times → Op
  flushes : ℕ → Times → Op

-- The world after a history, and the texts that its reads returned.
unfoldable pub run_ops : List Op → World → World × List Bytes
run_ops [] w = (w, [])
run_ops (gets id now now' ∷ os) w =
    let (w', texts) = run_ops os (get id now now' w).0 in (w', (get id now now' w).2 ∷ texts)
run_ops (getattrs id now ∷ os) w = run_ops os (getattr id now w).0
run_ops (puts id buf now t ∷ os) w = run_ops os (put id buf now t w).0
run_ops (flushes id t ∷ os) w = run_ops os (flush id t w).0

-- The specification: a read returns what was written last.
abbrev pub Files : Type 0
Files = ℕ → Bytes

abbrev pub write : ℕ → Bytes → Files → Files
write id buf f j = if j == id then buf else f j

unfoldable pub reads : List Op → Files → List Bytes
reads [] f = []
reads (gets id now now' ∷ os) f = f id ∷ reads os f
reads (getattrs id now ∷ os) f = reads os f
reads (puts id buf now t ∷ os) f = reads os (write id buf f)
reads (flushes id t ∷ os) f = reads os f

agree_write :
    (id : ℕ) (buf : Bytes) (f g h : Files)
    → ((j : ℕ) → g j ≡ (if j == id then buf else f j))
    → ((j : ℕ) → f j ≡ h j)
    → (j : ℕ) → g j ≡ write id buf h j
agree_write id buf f g h e k j = e j ∙ ap (λ x. if j == id then buf else x) (k j)

-- If every clean entry holds what the server holds, then over any history of reads, writes and
-- flushes each read returns what was written last, whatever the cache has and whatever was
-- written back; before a write, that is the text that was seen at first.
pub run_ops-reads :
    (os : List Op) (w : World) (f : Files)
    → IsCoherent w
    → ((j : ℕ) → seen j w ≡ f j)
    → IsCoherent (run_ops os w).0 × ((run_ops os w).1 ≡ reads os f)
unfolding run_ops reads
run_ops-reads [] w f c e = (c, refl)
run_ops-reads (gets id now now' ∷ os) w f c e =
    let (text, (c', same)) = get_transparent id now now' w c in
    let (d, r) = run_ops-reads os (get id now now' w).0 f c' (λ j. same j ∙ e j) in
    (d, ap (◌∷◌ (get id now now' w).2) r ∙ ap (λ t. t ∷ reads os f) (text ∙ e id))
run_ops-reads (getattrs id now ∷ os) w f c e =
    let (c', same) = getattr_transparent id now w c in
    run_ops-reads os (getattr id now w).0 f c' (λ j. same j ∙ e j)
run_ops-reads (puts id buf now t ∷ os) w f c e =
    let (c', changed) = put_transparent id buf now t w c in
    run_ops-reads os (put id buf now t w).0 (write id buf f) c'
      (agree_write id buf (λ j. seen j w) (λ j. seen j (put id buf now t w).0) f changed e)
run_ops-reads (flushes id t ∷ os) w f c e =
    let ((c', same), durable, gone) = flush_durable id t w c in
    run_ops-reads os (flush id t w).0 f c' (λ j. same j ∙ e j)

or_empty_if :
    (id j : ℕ) (s : Option Bytes)
    → or_empty (if j == id then none else s) ≡ (if j == id then [] else or_empty s)
or_empty_if id j s = elim (Bool-cases (j == id)) [ inl h ↦ rw h | inr h ↦ rw h ]

-- If every clean entry holds what the server holds, then `remove` of a file that is cached keeps
-- that, leaves no text of the file, in the cache or with the server, and changes no other.
pub remove_cached :
    (id : ℕ) (w : World) (e : CachedExtent)
    → IsCoherent w
    → lookup id w.extent_list ≡ some e
    → IsCoherent (remove id w).0
      × ((j : ℕ) → seen j (remove id w).0 ≡ (if j == id then [] else seen j w))
unfolding remove
remove_cached id w e c hit =
    rw (hit, remove)
      (seen-erase id w (Server.remove id w.server).0 [] c
        (λ j. ap or_empty (stored-remove id w.server j) ∙ or_empty_if id j (stored j w.server)))

-- `remove` of a file that is not cached answers OK, and leaves it with the server: the next `get`
-- still returns its text.
pub remove_uncached :
    (id now now' : ℕ) (w : World) (b : Bytes)
    → IsCoherent w
    → lookup id w.extent_list ≡ none
    → stored id w.server ≡ some b
    → ((remove id w).1 ≡ ok) × ((get id now now' (remove id w).0).2 ≡ b)
unfolding remove seen
remove_uncached id now now' w b c miss there =
    rw (miss, remove) (refl, (get_transparent id now now' w c).0 ∙ rw (miss, there))
