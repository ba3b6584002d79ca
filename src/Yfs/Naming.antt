-- ===== src/Yfs/Naming.antt =====
-- A file that `createFile` of yfs_client.cc has made is found by `lookupResource`.
use simple_distributed_files.Prelude.{
  ℕ, ◌≡◌, refl, ap, ◌∙◌, true, false, List, [], ◌∷◌, ◌++◌, some, arith, Bytes, All, str_eq_refl,
}
use simple_distributed_files.Extent.Server
use simple_distributed_files.Extent.Server.{stored}
use simple_distributed_files.Extent.Client
use simple_distributed_files.Extent.Client.{World}
use simple_distributed_files.Yfs.Directory.{
  Dirent, parsebuf, write_dirent, append_element, lookup_name,
}
use simple_distributed_files.Yfs.Listing.{IsEntry, parsebuf-write_dirent, parsebuf-append_element}
use simple_distributed_files.Yfs.Client.{
  State, Tick, ok, create_file, lookup_resource, has_entry, add_entry, file_inum, acquire, release,
}
use simple_distributed_files.Yfs.ReadBack.{found_after_put}

abbrev pub entry : ℕ → Bytes → Dirent
entry inum buf = record { name = buf; inum = inum }

lookup_name-last :
    (inum : ℕ) (buf : Bytes) (es : List Dirent)
    → has_entry true buf es ≡ false
    → has_entry false buf es ≡ false
    → lookup_name buf (es ++ entry inum buf ∷ []) ≡ inum
unfolding lookup_name has_entry
lookup_name-last inum buf [] h k = ground (arith, str_eq_refl buf)
lookup_name-last inum buf (e ∷ es) h k = ground (arith, lookup_name-last inum buf es, h, k)

-- What a successful `createFile` has found and done.
pub create_file-done :
    (g r parent : ℕ) (buf : Bytes) (k k1 k2 : Tick) (s s' : State) (es : List Dirent)
    → parsebuf g (Client.get parent k.server k.client s.ec).2 ≡ some es
    → create_file g r parent buf k k1 k2 s ≡ some (s', ok)
    → (has_entry true buf es ≡ false)
      × (s'
          ≡ add_entry
              (file_inum r)
              parent
              buf
              (Client.get parent k.server k.client s.ec).2
              es
              k1
              k2
              (record (acquire parent s) { ec = (Client.get parent k.server k.client s.ec).0 }))
unfolding create_file
create_file-done g r parent buf k k1 k2 s s' es parsed e = ground (arith, parsed, e)

lookup_resource-found :
    (g parent : ℕ) (buf : Bytes) (k : Tick) (s : State) (es : List Dirent)
    → (Client.get parent k.server k.client s.ec).1 ≡ Server.ok
    → parsebuf g (Client.get parent k.server k.client s.ec).2 ≡ some es
    → (s' : State) × (lookup_resource g parent buf k s ≡ some (s', ok, lookup_name buf es))
unfolding lookup_resource
lookup_resource-found g parent buf k s es found parsed = (
  release parent (record (acquire parent s) { ec = (Client.get parent k.server k.client s.ec).0 }),
  rw (found, parsed, lookup_resource),
)

lookup_added :
    (g inum parent : ℕ) (buf text : Bytes) (es : List Dirent) (k1 k2 k3 : Tick) (s : State)
    → text ≡ write_dirent es
    → All IsEntry es
    → IsEntry (entry inum buf)
    → (s' : State) × (lookup_resource g parent buf k3 (add_entry inum parent buf text es k1 k2 s)
        ≡ some (s', ok, lookup_name buf (es ++ entry inum buf ∷ [])))
unfolding add_entry
lookup_added g inum parent buf text es k1 k2 k3 s e proper new =
    let (found, got) =
      found_after_put parent (append_element text es inum buf) k2 k3
        (Client.put inum [] k1.server k1.times s.ec).0 in
    lookup_resource-found g parent buf k3 (add_entry inum parent buf text es k1 k2 s)
      (es ++ entry inum buf ∷ []) found
      (ap (parsebuf g) (got ∙ ap (λ t. append_element t es inum buf) e)
        ∙ parsebuf-append_element g es (entry inum buf) proper new)

create_file_lem :
    (g r parent : ℕ) (buf : Bytes) (k k1 k2 : Tick) (s : State) (es : List Dirent)
    → (Client.get parent k.server k.client s.ec).1 ≡ Server.ok
    → parsebuf g (Client.get parent k.server k.client s.ec).2 ≡ some es
    → has_entry true buf es ≡ false
    → create_file g r parent buf k k1 k2 s
      ≡ some (
        add_entry
            (file_inum r)
            parent
            buf
            (Client.get parent k.server k.client s.ec).2
            es
            k1
            k2
            (record (acquire parent s) { ec = (Client.get parent k.server k.client s.ec).0 }),
        ok,
      )
unfolding create_file
create_file_lem g r parent buf k k1 k2 s es found parsed nofile =
    rw (found, parsed, create_file, nofile) refl

-- In a directory that is there and whose text is that of proper entries, none of which has the name
-- of the new one, `createFile` of a proper entry answers OK, and the name is found then, with the
-- new file's number.
pub create_file-lookup_resource :
    (g g' r parent : ℕ) (buf : Bytes) (k k1 k2 k3 : Tick) (s : State) (es : List Dirent)
    → (Client.get parent k.server k.client s.ec).1 ≡ Server.ok
    → (Client.get parent k.server k.client s.ec).2 ≡ write_dirent es
    → All IsEntry es
    → IsEntry (entry (file_inum r) buf)
    → has_entry true buf es ≡ false
    → has_entry false buf es ≡ false
    → (s' s'' : State) × (create_file g r parent buf k k1 k2 s ≡ some (s', ok))
      × (lookup_resource g' parent buf k3 s' ≡ some (s'', ok, file_inum r))
create_file-lookup_resource g g' r parent buf k k1 k2 k3 s es found text proper new nofile nodir =
    let made : State =
      add_entry (file_inum r) parent buf (Client.get parent k.server k.client s.ec).2 es k1 k2
        (record (acquire parent s) { ec = (Client.get parent k.server k.client s.ec).0 }) in
    let (s'', there) =
      lookup_added g' (file_inum r) parent buf (Client.get parent k.server k.client s.ec).2 es k1 k2
        k3 (record (acquire parent s) { ec = (Client.get parent k.server k.client s.ec).0 }) text
        proper new in
    (
      made,
      s'',
      create_file_lem g r parent buf k k1 k2 s es found
          (ap (parsebuf g) text ∙ parsebuf-write_dirent g es proper) nofile,
      there
          ∙ ap (λ (n : ℕ). some (s'', ok, n)) (lookup_name-last (file_inum r) buf es nofile nodir),
    )
