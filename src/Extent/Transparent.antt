-- ===== src/Extent/Transparent.antt =====
-- Each operation of the client, as the file's text is seen through the cache.
use simple_distributed_files.Prelude.{
  ℕ, ◌≡◌, refl, sym, ap, ◌∙◌, inl, inr, false, [], none, some, arith, Bytes, Dict, lookup, insert,
  erase, lookup-erase, ◌==◌, if◌then◌else◌, Option-cases, Bool-cases, ==_iff,
}
use simple_distributed_files.Extent.Server.{
  FileInode, Attr, Status, ok, ioerr, Extents, Times, stored, stored_in, attr_of,
}
use simple_distributed_files.Extent.Server
use simple_distributed_files.Extent.Client.{World, CachedExtent, get, fetch, getattr, put, flush}
use simple_distributed_files.Extent.Cache.{
  or_empty, seen, IsCoherent, stored-get, stored-put, get-stored, if_same, seen-insert,
  IsCoherent-insert,
}

seen_miss :
    (id : ℕ) (w : World)
    → lookup id w.extent_list ≡ none
    → seen id w ≡ or_empty (stored id w.server)
unfolding seen
seen_miss id w e = rw e

seen_hit :
    (id : ℕ) (w : World) (e : CachedExtent) → lookup id w.extent_list ≡ some e → seen id w ≡ e.buf
unfolding seen
seen_hit id w e h = rw h

-- What an operation that changes no text leaves.
abbrev pub Keeps : World → World → Type 0
Keeps w w' = IsCoherent w' × ((j : ℕ) → seen j w' ≡ seen j w)

Keeps-insert :
    (id : ℕ) (e : CachedExtent) (w : World) (server : Extents)
    → IsCoherent w
    → ((j : ℕ) → stored j server ≡ stored j w.server)
    → (e.is_dirty ≡ false → e.buf ≡ or_empty (stored id w.server))
    → e.buf ≡ seen id w
    → Keeps w (record { extent_list = insert id e w.extent_list; server = server })
Keeps-insert id e w server c same clean b = (
  IsCoherent-insert id e w server c same clean,
  λ j.
      seen-insert id e w server (seen id w) same b j
      ∙ if_same (λ k. seen k w) id j (seen id w) refl,
)

-- If every clean entry holds what the server holds, then `get` keeps that, returns the file's
-- text as it is seen, and changes no text that is seen.
pub get_transparent :
    (id now now' : ℕ) (w : World)
    → IsCoherent w
    → ((get id now now' w).2 ≡ seen id w) × Keeps w (get id now now' w).0
unfolding get
get_transparent id now now' w c = elim (Option-cases (lookup id w.extent_list)) [
  | inl miss ↦
      let b : (Server.get id [] now w.server).2 ≡ or_empty (stored id w.server) =
        get-stored id now w.server in
      rw (miss, get)
        (
          b ∙ sym (seen_miss id w miss),
          Keeps-insert id _ w (Server.get id [] now w.server).0 c (stored-get id [] now w.server)
              (λ _. b) (b ∙ sym (seen_miss id w miss)),
        )
  | inr (e, hit) ↦
      rw (hit, get)
        (
          sym (seen_hit id w e hit),
          Keeps-insert id _ w w.server c (λ j. refl) (c id e hit) (sym (seen_hit id w e hit)),
        )
]

-- `getattr` changes no text.
pub getattr_transparent : (id now : ℕ) (w : World) → IsCoherent w → Keeps w (getattr id now w).0
unfolding getattr fetch
getattr_transparent id now w c = elim (Option-cases (lookup id w.extent_list)) [
  | inl miss ↦
      let b : (Server.get id [] now w.server).2 ≡ or_empty (stored id w.server) =
        get-stored id now w.server in
      rw (miss, getattr)
        (Keeps-insert id _ w (Server.get id [] now w.server).0 c (stored-get id [] now w.server)
          (λ _. b) (b ∙ sym (seen_miss id w miss)))
  | inr (e, hit) ↦ rw (hit, getattr) (c, λ j. refl)
]

-- If every clean entry holds what the server holds, then `put` keeps that, makes the text of its
-- file the one written, and changes no other that is seen.
pub put_transparent :
    (id : ℕ) (buf : Bytes) (now : ℕ) (t : Times) (w : World)
    → IsCoherent w
    → IsCoherent (put id buf now t w).0
      × ((j : ℕ) → seen j (put id buf now t w).0 ≡ (if j == id then buf else seen j w))
unfolding put fetch
put_transparent id buf now t w c = elim (Option-cases (lookup id w.extent_list)) [
  | inl miss ↦
      rw (miss, put)
        (
          IsCoherent-insert id _ w (Server.get id [] now w.server).0 c
              (stored-get id [] now w.server) (λ f. cc f),
          seen-insert id _ w (Server.get id [] now w.server).0 buf (stored-get id [] now w.server)
              refl,
        )
  | inr (e, hit) ↦
      rw (hit, put)
        (
          IsCoherent-insert id _ w w.server c (λ j. refl) (λ f. cc f),
          seen-insert id _ w w.server buf (λ j. refl) refl,
        )
]

erase_ne :
    (id j : ℕ) (d : Dict CachedExtent) (e : CachedExtent)
    → lookup j (erase id d) ≡ some e
    → (lookup j d ≡ some e) × ((j == id) ≡ false)
erase_ne id j d e h = ground (arith, lookup-erase id j d, h)

-- The entry of a file is given up, and the server's texts change in that file alone.
pub seen-erase :
    (id : ℕ) (w : World) (server : Extents) (b : Bytes)
    → IsCoherent w
    → ((j : ℕ) → or_empty (stored j server) ≡ (if j == id then b else or_empty (stored j w.server)))
    → IsCoherent (record { extent_list = erase id w.extent_list; server = server })
      × ((j : ℕ)
          → seen j (record { extent_list = erase id w.extent_list; server = server })
            ≡ (if j == id then b else seen j w))
unfolding seen
seen-erase id w server b c change = (
  λ j e h clean.
      let (h', miss) = erase_ne id j w.extent_list e h in
      c j e h' clean
      ∙ sym (change j ∙ ap (λ x. if x then b else or_empty (stored j w.server)) miss),
  λ j. elim (Bool-cases (j == id)) [
    | inl hit ↦ rw (lookup-erase id j w.extent_list, hit, change j, hit)
    | inr miss ↦ rw (lookup-erase id j w.extent_list, miss, change j, miss)
  ],
)

flush_change :
    (id : ℕ) (t : Times) (w : World) (e : CachedExtent)
    → IsCoherent w
    → lookup id w.extent_list ≡ some e
    → (j : ℕ)
    → or_empty (stored j (if e.is_dirty then (Server.put id e.buf t w.server).0 else w.server))
      ≡ (if j == id then e.buf else or_empty (stored j w.server))
flush_change id t w e c hit j = elim (Bool-cases e.is_dirty) [
  | inl dirty ↦
      rw (dirty, stored-put id e.buf t w.server j)
        (elim (Bool-cases (j == id)) [ inl same ↦ rw same | inr other ↦ rw other ])
  | inr clean ↦
      rw clean
        (sym (if_same (λ k. or_empty (stored k w.server)) id j e.buf (sym (c id e hit clean))))
]

-- If every clean entry holds what the server holds, then `flush` keeps that and changes no text
-- that is seen, gives up the entry, and leaves the text with the server.
pub flush_durable :
    (id : ℕ) (t : Times) (w : World)
    → IsCoherent w
    → Keeps w (flush id t w).0
      × (or_empty (stored id (flush id t w).0.server) ≡ seen id w)
      × (lookup id (flush id t w).0.extent_list ≡ none)
unfolding flush
flush_durable id t w c = elim (Option-cases (lookup id w.extent_list)) [
  | inl miss ↦ rw (miss, flush) ((c, λ j. refl), sym (seen_miss id w miss), miss)
  | inr (e, hit) ↦
      let server : Extents = if e.is_dirty then (Server.put id e.buf t w.server).0 else w.server in
      let change : (j : ℕ)
          → or_empty (stored j server) ≡ (if j == id then e.buf else or_empty (stored j w.server)) =
        flush_change id t w e c hit in
      let (coherent, view) = seen-erase id w server e.buf c change in
      rw (hit, flush)
        (
          (coherent, λ j. view j ∙ if_same (λ k. seen k w) id j e.buf (seen_hit id w e hit)),
          (rw ((==_iff id id).1 refl) at (change id)) ∙ sym (seen_hit id w e hit),
          rw ((==_iff id id).1 refl) at (lookup-erase id id w.extent_list),
        )
]
