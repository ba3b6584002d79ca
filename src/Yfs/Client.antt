-- ===== src/Yfs/Client.antt =====
-- The operations of `yfs_client` in yfs_client.cc, over the extent client and the lock client. A
-- lock that is asked for is granted in the end; the acquires and releases are recorded.
use simple_distributed_files.Prelude.{
  ℕ, ◌+◌, ◌-◌, ◌%◌, ◌^◌, Bool, true, false, not, ◌&&◌, List, [], ◌∷◌, ◌++◌, Option, none, some,
  Bytes, ltb, ◌==◌, if◌then◌else◌, str_eq, length, take, drop, replicate,
}
use simple_distributed_files.Extent.Server.{Attr, Times}
use simple_distributed_files.Extent.Server
use simple_distributed_files.Extent.Client.{World}
use simple_distributed_files.Extent.Client
use simple_distributed_files.Yfs.Directory.{
  Dirent, isfile, parsebuf, write_dirent, append_element, lookup_name, erase_file,
}

pub data LockEvent : Type 0 where
  acquired released : ℕ → LockEvent

-- `ec`, and what was asked of `lc`, the latest first.
pub record State : Type 0 where
  pub ec : World
  pub locks : List LockEvent

-- `EEXIST` is the number of errno.h, which the callers pass on.
pub data Status : Type 0 where
  ok noent ioerr eexist : Status

-- The clocks that a call of the extent client reads: the server's, the client's, and those of a
-- write.
pub record Tick : Type 0 where
  pub server : ℕ
  pub client : ℕ
  pub times : Times

abbrev pub acquire : ℕ → State → State
acquire lid s = record s { locks = acquired lid ∷ s.locks }

abbrev pub release : ℕ → State → State
release lid s = record s { locks = released lid ∷ s.locks }

abbrev pub is_ok : Server.Status → Bool
is_ok Server.ok = true
is_ok Server.ioerr = false

abbrev pub ec_get : ℕ → Tick → State → State × Bool × Bytes
ec_get eid k s =
    let (w, ret, buf) = Client.get eid k.server k.client s.ec in
    (record s { ec = w }, is_ok ret, buf)

abbrev pub ec_getattr : ℕ → Tick → State → State × Bool × Attr
ec_getattr eid k s =
    let (w, ret, a) = Client.getattr eid k.server s.ec in (record s { ec = w }, is_ok ret, a)

abbrev pub ec_put : ℕ → Bytes → Tick → State → State
ec_put eid buf k s = record s { ec = (Client.put eid buf k.server k.times s.ec).0 }

abbrev pub ec_remove : ℕ → State → State
ec_remove eid s = record s { ec = (Client.remove eid s.ec).0 }

-- `none` where the attributes are not filled in. `getfile` takes all four, `getdir` not the size.
unfoldable pub getfile : ℕ → Tick → State → State × Status × Option Attr
getfile inum k s =
    let (s1, found, a) = ec_getattr inum k (acquire inum s) in
    if found then (release inum s1, ok, some a) else (release inum s1, ioerr, none)

unfoldable pub getdir : ℕ → Tick → State → State × Status × Option (ℕ × ℕ × ℕ)
getdir inum k s =
    let (s1, found, a) = ec_getattr inum k (acquire inum s) in
    if found
    then (release inum s1, ok, some (a.atime, a.mtime, a.ctime))
    else (release inum s1, ioerr, none)

-- The search for duplicates, among the files or among the directories.
unfoldable pub has_entry : Bool → Bytes → List Dirent → Bool
has_entry file buf [] = false
has_entry file buf (e ∷ es) =
    if str_eq e.name buf && (if file then isfile e.inum else not (isfile e.inum))
    then true
    else has_entry file buf es

-- `inum | 0x80000000` and `inum & 0x7FFFFFFF`
unfoldable pub file_inum : ℕ → ℕ
file_inum r = if isfile r then r else r + 2 ^ 31

unfoldable pub dir_inum : ℕ → ℕ
dir_inum r = r % 2 ^ 31

-- The end of `createFile` and `createDirectory`: the new text first, then the parent's.
unfoldable pub add_entry : ℕ → ℕ → Bytes → Bytes → List Dirent → Tick → Tick → State → State
add_entry inum parent buf parent_buf contents k1 k2 s =
    release parent
      (ec_put parent (append_element parent_buf contents inum buf) k2 (ec_put inum [] k1 s))

-- `r` is what `random` returns. `none` is a directory text that does not parse. Where the parent
-- is missing the lock is kept.
unfoldable pub create_file :
    ℕ → ℕ → ℕ → Bytes → Tick → Tick → Tick → State → Option (State × Status)
create_file garbage r parent buf k k1 k2 s =
    let (s1, found, parent_buf) = ec_get parent k (acquire parent s) in
    if found
    then elim (parsebuf garbage parent_buf) [
      | none ↦ none
      | some contents ↦
          if has_entry true buf contents
          then some (release parent s1, eexist)
          else some (add_entry (file_inum r) parent buf parent_buf contents k1 k2 s1, ok)
    ]
    else some (s1, noent)

unfoldable pub create_directory :
    ℕ → ℕ → ℕ → Bytes → Tick → Tick → Tick → State → Option (State × Status)
create_directory garbage r parent buf k k1 k2 s =
    let (s1, found, parent_buf) = ec_get parent k (acquire parent s) in
    if found
    then elim (parsebuf garbage parent_buf) [
      | none ↦ none
      | some contents ↦
          if has_entry false buf contents
          then some (release parent s1, eexist)
          else some (add_entry (dir_inum r) parent buf parent_buf contents k1 k2 s1, ok)
    ]
    else some (release parent s1, noent)

unfoldable pub unlink_file : ℕ → ℕ → Bytes → Tick → Tick → State → Option (State × Status)
unlink_file garbage parent buf k k1 s =
    let (s1, found, parent_buf) = ec_get parent k (acquire parent s) in
    if found
    then elim (parsebuf garbage parent_buf) [
      | none ↦ none
      | some contents ↦ elim (erase_file buf contents) [
        | none ↦ some (release parent s1, noent)
        | some (inum, rest) ↦ some (
          release parent (
              release inum
                (ec_remove inum (ec_put parent (write_dirent rest) k1 (acquire inum s1)))),
          ok,
        )
      ]
    ]
    else some (release parent s1, noent)

-- The number 0 is what a name that is not there gives.
unfoldable pub lookup_resource : ℕ → ℕ → Bytes → Tick → State → Option (State × Status × ℕ)
lookup_resource garbage parent buf k s =
    let (s1, found, parent_buf) = ec_get parent k (acquire parent s) in
    if found
    then elim (parsebuf garbage parent_buf) [
      | none ↦ none
      | some contents ↦ some (release parent s1, ok, lookup_name buf contents)
    ]
    else some (release parent s1, ioerr, 0)

unfoldable pub get_dir_contents : ℕ → Tick → State → State × Status × Bytes
get_dir_contents inum k s =
    let (s1, found, buf) = ec_get inum k (acquire inum s) in
    if found then (release inum s1, ok, buf) else (release inum s1, ioerr, buf)

-- The text that `s.resize(n, '\0')` makes.
unfoldable pub resized : ℕ → Bytes → Bytes
resized n s = take n s ++ replicate (n - length s) 0

-- `s.resize(n, '\0')`, which throws if `n` is more than `max_size()` of strings: `none`.
unfoldable pub resize : ℕ → ℕ → Bytes → Option Bytes
resize max_size n s = if ltb max_size n then none else some (resized n s)

unfoldable pub set_attr : ℕ → ℕ → ℕ → Tick → Tick → Tick → State → Option (State × Status)
set_attr max_size inum size k k1 k2 s =
    let (s1, found, a) = ec_getattr inum k (acquire inum s) in
    if found
    then (if a.size == size
        then some (release inum s1, ok)
        else (let (s2, there, buf) = ec_get inum k1 s1 in
            elim (resize max_size size buf) [
              | none ↦ none
              | some text ↦ some (release inum (ec_put inum text k2 s2), ok)
            ]))
    else some (release inum s1, ioerr)

-- `s.replace(off, buf.size(), buf)`, which throws if `off` is beyond the end: `none`.
unfoldable pub replace : ℕ → Bytes → Bytes → Option Bytes
replace off buf s =
    if ltb (length s) off then none else some (take off s ++ (buf ++ drop (off + length buf) s))

-- The new text of `writeFile`. The sum is that of `size_t`.
unfoldable pub write_text : ℕ → Bytes → ℕ → Bytes → Option Bytes
write_text max_size buf off current =
    if ltb (length current) ((off + length buf) % 2 ^ 64)
    then elim (resize max_size ((off + length buf) % 2 ^ 64) current) [
      | none ↦ none
      | some text ↦ replace off buf text
    ]
    else replace off buf current

-- The caller's `size` is the length of `buf`.
unfoldable pub write_file : ℕ → ℕ → Bytes → ℕ → Tick → Tick → State → Option (State × Status)
write_file max_size inum buf off k k1 s =
    let (s1, found, current) = ec_get inum k (acquire inum s) in
    if found
    then elim (write_text max_size buf off current) [
      | none ↦ none
      | some text ↦ some (release inum (ec_put inum text k1 s1), ok)
    ]
    else some (release inum s1, ioerr)

-- `none` where the caller's buffer is left alone.
unfoldable pub read_file : ℕ → ℕ → ℕ → Tick → State → State × Status × Option Bytes
read_file inum size off k s =
    let (s1, found, current) = ec_get inum k (acquire inum s) in
    if found
    then (if ltb (length current) off
        then (release inum s1, ioerr, none)
        else (release inum s1, ok, some (take size (drop off current))))
    else (release inum s1, ioerr, none)
