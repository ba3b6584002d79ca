-- ===== src/Extent/Cache.antt =====
-- The cache is transparent: through it a file is what was last written, whether the cache or the
-- server has it. And where it is not: files that do not exist, files that are not cached.
use simple_distributed_files.Prelude.{
  ℕ, ◌≡◌, sym, ap, ◌∙◌, subst, inl, inr, false, [], Option, none, some, Bytes, lookup, insert,
  lookup-insert, lookup-erase, ◌==◌, if◌then◌else◌, Option-cases, Bool-cases, some_inj, ==_iff,
}
use simple_distributed_files.Extent.Server.{
  FileInode, Attr, Status, ok, ioerr, Extents, Times, stored, stored_in,
}
use simple_distributed_files.Extent.Server
use simple_distributed_files.Extent.Client.{World, CachedExtent}

abbrev pub or_empty : Option Bytes → Bytes
or_empty none = []
or_empty (some b) = b

stored-insert :
    (id : ℕ) (f : FileInode) (s : Extents) (j : ℕ)
    → stored j (insert id f s) ≡ (if j == id then some f.file_buf else stored j s)
unfolding stored
stored-insert id f s j = elim (Bool-cases (j == id)) [
  | inl same ↦ rw (lookup-insert id j f s, same)
  | inr other ↦ rw (lookup-insert id j f s, other)
]

stored-some :
    (id : ℕ) (f : FileInode) (s : Extents) → lookup id s ≡ some f → stored id s ≡ some f.file_buf
unfolding stored
stored-some id f s e = rw e

stored-none : (id : ℕ) (s : Extents) → lookup id s ≡ none → stored id s ≡ none
unfolding stored
stored-none id s e = rw e

-- Writing a file stores its text under its number, and nothing else changes.
pub stored-put :
    (id : ℕ) (buf : Bytes) (t : Times) (s : Extents) (j : ℕ)
    → stored j (Server.put id buf t s).0 ≡ (if j == id then some buf else stored j s)
unfolding Server.put
stored-put id buf t s j = elim (Option-cases (lookup id s)) [
  | inl e ↦ rw (e, Server.put) (stored-insert id _ s j)
  | inr (f, e) ↦ rw (e, Server.put) (stored-insert id _ s j)
]

pub if_same :
    {A : Type 0} (f : ℕ → A) (id j : ℕ) (a : A) → f id ≡ a → (if j == id then a else f j) ≡ f j
if_same f id j a e = elim (Bool-cases (j == id)) [
  | inl same ↦ rw same (sym e ∙ ap f (sym ((==_iff j id).0 same)))
  | inr other ↦ rw other
]

-- Reading changes no text.
pub stored-get :
    (id : ℕ) (buf : Bytes) (now : ℕ) (s : Extents) (j : ℕ)
    → stored j (Server.get id buf now s).0 ≡ stored j s
unfolding Server.get
stored-get id buf now s j = elim (Option-cases (lookup id s)) [
  | inl e ↦ rw (e, Server.get)
  | inr (f, e) ↦
      rw (e, Server.get)
        (stored-insert id _ s j
          ∙ if_same (λ k. stored k s) id j (some f.file_buf) (stored-some id f s e))
]

-- A read gives the text, and the empty text if there is none.
pub get-stored : (id now : ℕ) (s : Extents) → (Server.get id [] now s).2 ≡ or_empty (stored id s)
unfolding Server.get
get-stored id now s = elim (Option-cases (lookup id s)) [
  | inl e ↦ rw (e, Server.get, stored-none id s e)
  | inr (f, e) ↦ rw (e, Server.get, stored-some id f s e)
]

pub stored-remove :
    (id : ℕ) (s : Extents) (j : ℕ)
    → stored j (Server.remove id s).0 ≡ (if j == id then none else stored j s)
unfolding Server.remove stored
stored-remove id s j = elim (Option-cases (lookup id s)) [
  | inl e ↦
      rw (e, Server.remove) (sym (if_same (λ k. stored_in (lookup k s)) id j none (ap stored_in e)))
  | inr (f, e) ↦ elim (Bool-cases (j == id)) [
    | inl same ↦ rw (e, Server.remove, lookup-erase id j s, same)
    | inr other ↦ rw (e, Server.remove, lookup-erase id j s, other)
  ]
]

-- What a client sees of a file: the cached text, or what the server holds.
abbrev pub seen_of : Option CachedExtent → Bytes → Bytes
seen_of none b = b
seen_of (some e) b = e.buf

unfoldable pub seen : ℕ → World → Bytes
seen j w = seen_of (lookup j w.extent_list) (or_empty (stored j w.server))

-- A clean entry holds what the server holds.
abbrev pub IsCoherent : World → Type 0
IsCoherent w =
    (j : ℕ) (e : CachedExtent)
    → lookup j w.extent_list ≡ some e
    → e.is_dirty ≡ false
    → e.buf ≡ or_empty (stored j w.server)

-- The cache gets an entry, and the server's texts stay.
pub seen-insert :
    (id : ℕ) (e : CachedExtent) (w : World) (server : Extents) (b : Bytes)
    → ((j : ℕ) → stored j server ≡ stored j w.server)
    → e.buf ≡ b
    → (j : ℕ)
    → seen j (record { extent_list = insert id e w.extent_list; server = server })
      ≡ (if j == id then b else seen j w)
unfolding seen
seen-insert id e w server b same eb j = elim (Bool-cases (j == id)) [
  | inl hit ↦ rw (lookup-insert id j e w.extent_list, hit) eb
  | inr miss ↦ rw (lookup-insert id j e w.extent_list, miss, same j)
]

pub IsCoherent-insert :
    (id : ℕ) (e : CachedExtent) (w : World) (server : Extents)
    → IsCoherent w
    → ((j : ℕ) → stored j server ≡ stored j w.server)
    → (e.is_dirty ≡ false → e.buf ≡ or_empty (stored id w.server))
    → IsCoherent (record { extent_list = insert id e w.extent_list; server = server })
IsCoherent-insert id e w server c same eb j f h clean = elim (Bool-cases (j == id)) [
  | inl hit ↦
      let g : e ≡ f = some_inj (rw (lookup-insert id j e w.extent_list, hit) at h) in
      rw (same j, (==_iff j id).0 hit)
        (subst (λ x. x.buf ≡ or_empty (stored id w.server)) g (eb (ap (λ x. x.is_dirty) g ∙ clean)))
  | inr miss ↦ rw (same j) (c j f (rw (lookup-insert id j e w.extent_list, miss) at h) clean)
]
