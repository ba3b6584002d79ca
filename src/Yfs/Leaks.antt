-- ===== src/Yfs/Leaks.antt =====
-- Where the file system client of yfs_client.cc, the caches of extent_client.cc and the extent
-- server do not fit together: files that are removed and stay, files that are made and not seen.
use simple_distributed_files.Prelude.{
  ℕ, ◌≡◌, ◌≢◌, refl, sym, ap, ◌∙◌, inl, inr, List, [], none, some, arith, Bytes, Option-cases,
  none_ne_some, lookup, lookup-insert,
}
use simple_distributed_files.Extent.Server
use simple_distributed_files.Extent.Server.{stored}
use simple_distributed_files.Extent.Client
use simple_distributed_files.Extent.Client.{World}
use simple_distributed_files.Extent.Cache.{stored-get}
use simple_distributed_files.Yfs.Directory.{Dirent, parsebuf, write_dirent, erase_file}
use simple_distributed_files.Yfs.Client.{
  State, Tick, ok, create_file, unlink_file, add_entry, file_inum,
}
use simple_distributed_files.Yfs.Naming.{create_file-done}

-- The server's text of a file through the client's reads and writes, which leave it alone.
get-stored_same :
    (id j : ℕ) (k : Tick) (w : World)
    → stored j (Client.get id k.server k.client w).0.server ≡ stored j w.server
unfolding Client.get
get-stored_same id j k w = elim (Option-cases (lookup id w.extent_list)) [
  | inl miss ↦ rw (miss, Client.get) (stored-get id [] k.server w.server j)
  | inr (e, hit) ↦ rw (hit, Client.get)
]

put-stored_same :
    (id j : ℕ) (buf : Bytes) (k : Tick) (w : World)
    → stored j (Client.put id buf k.server k.times w).0.server ≡ stored j w.server
unfolding Client.put Client.fetch
put-stored_same id j buf k w = elim (Option-cases (lookup id w.extent_list)) [
  | inl miss ↦ rw (miss, Client.put) (stored-get id [] k.server w.server j)
  | inr (e, hit) ↦ rw (hit, Client.put)
]

get-uncached :
    (id j : ℕ) (k : Tick) (w : World)
    → j ≢ id
    → lookup j w.extent_list ≡ none
    → lookup j (Client.get id k.server k.client w).0.extent_list ≡ none
unfolding Client.get
get-uncached id j k w other h = elim (Option-cases (lookup id w.extent_list)) [
  | inl miss ↦ rw (miss, Client.get) (lookup-insert id j _ w.extent_list ∙ ground (arith, h, other))
  | inr (e, hit) ↦
      rw (hit, Client.get) (lookup-insert id j _ w.extent_list ∙ ground (arith, h, other))
]

put-uncached :
    (id j : ℕ) (buf : Bytes) (k : Tick) (w : World)
    → j ≢ id
    → lookup j w.extent_list ≡ none
    → lookup j (Client.put id buf k.server k.times w).0.extent_list ≡ none
unfolding Client.put Client.fetch
put-uncached id j buf k w other h = elim (Option-cases (lookup id w.extent_list)) [
  | inl miss ↦ rw (miss, Client.put) (lookup-insert id j _ w.extent_list ∙ ground (arith, h, other))
  | inr (e, hit) ↦
      rw (hit, Client.put) (lookup-insert id j _ w.extent_list ∙ ground (arith, h, other))
]

remove_nothing : (id : ℕ) (w : World) → lookup id w.extent_list ≡ none → (Client.remove id w).0 ≡ w
unfolding Client.remove
remove_nothing id w h = rw (h, Client.remove)

-- The caches and the server after `unlinkFile` has taken a name out of its directory.
abbrev unlinked : ℕ → ℕ → List Dirent → Tick → Tick → World → World
unlinked parent inum rest k k1 w =
    (Client.remove inum
      (Client.put parent (write_dirent rest) k1.server k1.times
        (Client.get parent k.server k.client w).0).0).0

unlink_file-done :
    (g parent : ℕ) (buf : Bytes) (k k1 : Tick) (s : State) (es rest : List Dirent) (inum : ℕ)
    → (Client.get parent k.server k.client s.ec).1 ≡ Server.ok
    → parsebuf g (Client.get parent k.server k.client s.ec).2 ≡ some es
    → erase_file buf es ≡ some (inum, rest)
    → (s' : State) × (unlink_file g parent buf k k1 s ≡ some (s', ok))
      × (s'.ec ≡ unlinked parent inum rest k k1 s.ec)
unfolding unlink_file
unlink_file-done g parent buf k k1 s es rest inum found parsed erased =
    rw (found, parsed, erased, unlink_file) (_, refl, refl)

-- Where the directory is there and parses, and has a file of the name, which is not cached and is
-- not the directory itself: `unlinkFile` answers OK, and the extent server still holds the text
-- that it held.
pub unlink_file-leaks :
    (g parent : ℕ) (buf : Bytes) (k k1 : Tick) (s : State) (es rest : List Dirent) (inum : ℕ)
    → (Client.get parent k.server k.client s.ec).1 ≡ Server.ok
    → parsebuf g (Client.get parent k.server k.client s.ec).2 ≡ some es
    → erase_file buf es ≡ some (inum, rest)
    → inum ≢ parent
    → lookup inum s.ec.extent_list ≡ none
    → (s' : State) × (unlink_file g parent buf k k1 s ≡ some (s', ok))
      × (stored inum s'.ec.server ≡ stored inum s.ec.server)
unlink_file-leaks g parent buf k k1 s es rest inum found parsed erased other uncached =
    let w : World = (Client.get parent k.server k.client s.ec).0 in
    let w' : World = (Client.put parent (write_dirent rest) k1.server k1.times w).0 in
    let none_left : lookup inum w'.extent_list ≡ none =
      put-uncached parent inum (write_dirent rest) k1 w other
        (get-uncached parent inum k s.ec other uncached) in
    let (s', done, same) = unlink_file-done g parent buf k k1 s es rest inum found parsed erased in
    (
      s',
      done,
      ap (λ (x : World). stored inum x.server) (same ∙ remove_nothing inum w' none_left)
          ∙ put-stored_same parent inum (write_dirent rest) k1 w
          ∙ get-stored_same parent inum k s.ec,
    )

get_missing :
    (id now now' : ℕ) (w : World)
    → lookup id w.extent_list ≡ none
    → stored id w.server ≡ none
    → (Client.get id now now' w).1 ≡ Server.ioerr
unfolding Client.get Server.get stored
get_missing id now now' w miss gone = elim (Option-cases (lookup id w.server)) [
  | inl e ↦ rw (miss, Client.get, e, Server.get)
  | inr (f, e) ↦ absurd (none_ne_some (sym (rw (e, stored) at gone)))
]

add_entry-stored :
    (inum parent j : ℕ) (buf text : Bytes) (es : List Dirent) (k1 k2 : Tick) (s : State)
    → stored j (add_entry inum parent buf text es k1 k2 s).ec.server ≡ stored j s.ec.server
unfolding add_entry
add_entry-stored inum parent j buf text es k1 k2 s =
    put-stored_same parent j _ k2 (Client.put inum [] k1.server k1.times s.ec).0
    ∙ put-stored_same inum j [] k1 s.ec

-- A new file stays in its maker's cache, which does not have the file's lock: if the server had no
-- file of the number before `createFile`, then right after it a client that has not cached the
-- file gets IOERR for it.
create_file-unseen :
    (g r parent : ℕ) (buf : Bytes) (k k1 k2 : Tick) (s s' : State) (es : List Dirent)
    (other : World) (now now' : ℕ)
    → parsebuf g (Client.get parent k.server k.client s.ec).2 ≡ some es
    → create_file g r parent buf k k1 k2 s ≡ some (s', ok)
    → stored (file_inum r) s.ec.server ≡ none
    → other.server ≡ s'.ec.server
    → lookup (file_inum r) other.extent_list ≡ none
    → (Client.get (file_inum r) now now' other).1 ≡ Server.ioerr
create_file-unseen g r parent buf k k1 k2 s s' es other now now' parsed e gone same uncached =
    get_missing (file_inum r) now now' other uncached (
      ap (stored (file_inum r)) same
      ∙ ap (λ (x : State). stored (file_inum r) x.ec.server)
          (create_file-done g r parent buf k k1 k2 s s' es parsed e).1
      ∙ add_entry-stored (file_inum r) parent (file_inum r) buf _ es k1 k2 _
      ∙ get-stored_same parent (file_inum r) k s.ec
      ∙ gone)
