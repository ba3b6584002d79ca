-- ===== src/Fuse/Files.antt =====
-- What the kernel sees of a file through fuse.cc, yfs_client.cc and the extent client together.
use simple_distributed_files.Prelude.{
  ℕ, false, ltb, ◌≤◌, ◌^◌, ◌<◌, ◌≡◌, refl, ap, ◌∙◌, inl, inr, true, [], ◌∷◌, some, Bytes, arith,
  ◌==◌, Bool-cases, Option-cases, lookup, insert, ◌%◌, ==_iff,
}
use simple_distributed_files.Extent.Server.{Times, Attr, attr_of}
use simple_distributed_files.Extent.Server
use simple_distributed_files.Extent.Client.{World, CachedExtent, written}
use simple_distributed_files.Extent.Client
use simple_distributed_files.Yfs.Directory.{isfile}
use simple_distributed_files.Yfs.Client.{
  State, Tick, ok, resize, resized, set_attr, getfile, acquire, release,
}
use simple_distributed_files.Yfs.ReadBack.{insert_hit}
use simple_distributed_files.Yfs.Writing.{length-resized}
use simple_distributed_files.Fuse.{
  reply_attr, Stat, file_stat, s_ifreg, set_size, fuseserver_setattr, getattr,
}

cached_after_getattr :
    (inum now : ℕ) (w : World)
    → (e : CachedExtent) × (lookup inum (Client.getattr inum now w).0.extent_list ≡ some e)
      × (e.attr ≡ (Client.getattr inum now w).2)
unfolding Client.getattr
cached_after_getattr inum now w = elim (Option-cases (lookup inum w.extent_list)) [
  | inl miss ↦
      let e : CachedExtent = (Client.fetch inum now w).2 in
      rw (miss, Client.getattr) (e, insert_hit inum e (Client.fetch inum now w).0.extent_list, refl)
  | inr (e, hit) ↦ rw (hit, Client.getattr) (e, hit, refl)
]

getattr_hit :
    (inum now : ℕ) (w : World) (e : CachedExtent)
    → lookup inum w.extent_list ≡ some e
    → ((Client.getattr inum now w).1 ≡ Server.ok) × ((Client.getattr inum now w).2 ≡ e.attr)
unfolding Client.getattr
getattr_hit inum now w e h = rw (h, Client.getattr) (refl, refl)

-- The attributes of a file that was written are those of its text.
attr_after_put :
    (inum now now' : ℕ) (buf : Bytes) (t : Times) (w : World) (e : CachedExtent)
    → lookup inum w.extent_list ≡ some e
    → ((Client.getattr inum now' (Client.put inum buf now t w).0).1 ≡ Server.ok)
      × ((Client.getattr inum now' (Client.put inum buf now t w).0).2 ≡ attr_of t buf)
unfolding Client.put
attr_after_put inum now now' buf t w e h =
    rw (h, Client.put)
      (getattr_hit inum now'
        (record w { extent_list = insert inum (written buf t e) w.extent_list }) (written buf t e)
        (insert_hit inum (written buf t e) w.extent_list))

cached_after_get :
    (inum now now' : ℕ) (w : World) (e : CachedExtent)
    → lookup inum w.extent_list ≡ some e
    → (e' : CachedExtent) × (lookup inum (Client.get inum now now' w).0.extent_list ≡ some e')
unfolding Client.get
cached_after_get inum now now' w e h =
    let e' : CachedExtent = record e { attr = record e.attr { atime = now' % 2 ^ 32 } } in
    rw (h, Client.get) (e', insert_hit inum e' w.extent_list)

-- What `setAttr` leaves: the size that was asked for, by the client's own attributes.
set_attr_size :
    (max_size ino size now : ℕ) (k k1 k2 : Tick) (s : State)
    → size < 2 ^ 32
    → size ≤ max_size
    → (Client.getattr ino k.server s.ec).1 ≡ Server.ok
    → (s1 : State) × (set_attr max_size ino size k k1 k2 s ≡ some (s1, ok))
      × ((Client.getattr ino now s1.ec).1 ≡ Server.ok)
      × ((Client.getattr ino now s1.ec).2.size ≡ size)
unfolding set_attr resize
set_attr_size max_size ino size now k k1 k2 s small fits found =
    let g = Client.getattr ino k.server s.ec in
    let (e, hit, attr) = cached_after_getattr ino k.server s.ec in
    elim (Bool-cases (g.2.size == size)) [
      | inl same ↦
          let (yes_ok, a) = getattr_hit ino now g.0 e hit in
          rw (found, same)
            (
              release ino (record (acquire ino s) { ec = g.0 }),
              refl,
              yes_ok,
              ap (λ (x : Attr). x.size) (a ∙ attr) ∙ (==_iff g.2.size size).0 same,
            )
      | inr other ↦
          let (e', hit') = cached_after_get ino k1.server k1.client g.0 e hit in
          let h = Client.get ino k1.server k1.client g.0 in
          let (there, a) =
            attr_after_put ino k2.server now (resized size h.2) k2.times h.0 e' hit' in
          let room : ltb max_size size ≡ false = ground (arith, fits) in
          rw (found, other, room)
            (
              release ino (record (acquire ino s) {
                ec = (Client.put ino (resized size h.2) k2.server k2.times h.0).0;
              }),
              refl,
              there,
              ap (λ (x : Attr). x.size) a ∙ omega (arith, length-resized size h.2, small),
            )
    ]

getattr_file :
    (ino : ℕ) (k : Tick) (s : State)
    → isfile ino ≡ true
    → (Client.getattr ino k.server s.ec).1 ≡ Server.ok
    → (s' : State) × (getattr ino k s
        ≡ (s', ok, file_stat ino (some (Client.getattr ino k.server s.ec).2)))
unfolding getattr getfile
getattr_file ino k s file found = (
  release ino (record (acquire ino s) { ec = (Client.getattr ino k.server s.ec).0 }),
  rw (file, found) refl,
)

set_size_lem :
    (max_size ino size : ℕ) (k : ℕ → Tick) (s s1 s2 : State) (st : Stat)
    → set_attr max_size ino size (k 0) (k 1) (k 2) s ≡ some (s1, ok)
    → getattr ino (k 3) s1 ≡ (s2, ok, st)
    → set_size max_size ino size true k s ≡ some (s2, reply_attr st ∷ [])
unfolding set_size
set_size_lem max_size ino size k s s1 s2 st e f = rw (e, f) refl

-- A `setattr` of FUSE that sets the size of a file that is there to less than 2 ^ 32, and no more
-- than a string may have, is answered once, with the attributes of a regular file of that number
-- and of exactly that size.
pub fuse_set_size :
    (max_size ino size : ℕ) (k : ℕ → Tick) (s : State)
    → size < 2 ^ 32
    → size ≤ max_size
    → isfile ino ≡ true
    → (Client.getattr ino (k 0).server s.ec).1 ≡ Server.ok
    → (s' : State) × (st : Stat) × (fuseserver_setattr max_size ino size true k s
        ≡ some (s', reply_attr st ∷ []))
      × (st.ino ≡ ino)
      × (st.mode ≡ s_ifreg 438)
      × (st.size ≡ size)
unfolding fuseserver_setattr
fuse_set_size max_size ino size k s small fits file found =
    let (s1, done, there, sized) =
      set_attr_size max_size ino size (k 3).server (k 0) (k 1) (k 2) s small fits found in
    let (s2, e) = getattr_file ino (k 3) s1 file there in
    let st : Stat = file_stat ino (some (Client.getattr ino (k 3).server s1.ec).2) in
    (s2, st, rw file (set_size_lem max_size ino size k s s1 s2 st done e), refl, refl, sized)
