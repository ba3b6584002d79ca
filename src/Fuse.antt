-- ===== src/Fuse.antt =====
-- The handlers of fuse.cc, which answer requests of the FUSE library by calls of yfs_client.cc. A
-- handler gives the replies that it makes, the first one first; `none` is a program that ends in
-- an exception. `k` are the clocks that its calls read.
use simple_distributed_files.Prelude.{
  ℕ, ◌+◌, Bool, true, false, not, List, [], ◌∷◌, ◌++◌, Option, none, some, Bytes, ltb, ◌==◌,
  if◌then◌else◌, length, take, drop,
}
use simple_distributed_files.Extent.Server.{Attr}
use simple_distributed_files.Yfs.Directory.{Dirent, isfile, isdir, c_str, parsebuf}
use simple_distributed_files.Yfs.Client.{
  State, Status, Tick, ok, noent, ioerr, eexist, getfile, getdir, file_inum, dir_inum, create_file,
  create_directory, unlink_file, lookup_resource, get_dir_contents, set_attr, write_file, read_file,
}
pub mod Replies
pub mod Listing
pub mod Files
mod Tests

-- `st_mode`, with its permissions; `no_mode` is zero.
pub data Mode : Type 0 where
  s_ifreg s_ifdir : ℕ → Mode
  no_mode : Mode

pub record Stat : Type 0 where
  pub ino : ℕ
  pub mode : Mode
  pub nlink : ℕ
  pub atime : ℕ
  pub mtime : ℕ
  pub ctime : ℕ
  pub size : ℕ

abbrev pub stat_zero : ℕ → Stat
stat_zero inum = record {
  ino = inum;
  mode = no_mode;
  nlink = 0;
  atime = 0;
  mtime = 0;
  ctime = 0;
  size = 0;
}

pub record Entry : Type 0 where
  pub ino : ℕ
  pub attr : Stat
  pub timeout : ℕ
  pub generation : ℕ

abbrev pub entry_of : ℕ → Stat → Entry
entry_of inum st = record { ino = inum; attr = st; timeout = 0; generation = 0 }

pub data Errno : Type 0 where
  success enoent enosys enotdir e_exist : Errno

pub data Reply : Type 0 where
  reply_err : Errno → Reply
  reply_attr : Stat → Reply
  reply_buf : Bytes → Reply
  reply_write : ℕ → Reply
  reply_create reply_entry : Entry → Reply
  reply_open : Reply
  reply_statfs : ℕ → ℕ → Reply

abbrev pub file_stat : ℕ → Option Attr → Stat
file_stat inum none = stat_zero inum
file_stat inum (some a) = record {
  ino = inum;
  mode = s_ifreg 438;
  nlink = 1;
  atime = a.atime;
  mtime = a.mtime;
  ctime = a.ctime;
  size = a.size;
}

abbrev pub dir_stat : ℕ → Option (ℕ × ℕ × ℕ) → Stat
dir_stat inum none = stat_zero inum
dir_stat inum (some (atime, mtime, ctime)) = record {
  ino = inum;
  mode = s_ifdir 511;
  nlink = 2;
  atime = atime;
  mtime = mtime;
  ctime = ctime;
  size = 0;
}

-- The permissions are 0666 and 0777. What is not found has no attributes but its number.
unfoldable pub getattr : ℕ → Tick → State → State × Status × Stat
getattr inum k s =
    if isfile inum
    then (let (s1, ret, a) = getfile inum k s in (s1, ret, file_stat inum a))
    else (let (s1, ret, a) = getdir inum k s in (s1, ret, dir_stat inum a))

abbrev pub is_ok : Status → Bool
is_ok ok = true
is_ok _ = false

unfoldable pub fuseserver_getattr : ℕ → (ℕ → Tick) → State → State × List Reply
fuseserver_getattr ino k s =
    let (s1, ret, st) = getattr ino (k 0) s in
    (s1, (if is_ok ret then reply_attr st else reply_err enoent) ∷ [])

-- What `fuseserver_setattr` does after `setAttr`.
abbrev pub resized_reply : ℕ → Tick → Option (State × Status) → Option (State × List Reply)
resized_reply ino k none = none
resized_reply ino k (some (s, ret)) =
    if is_ok ret
    then (let (s2, ret2, st) = getattr ino k s in
        some (s2, (if is_ok ret2 then reply_attr st else reply_err enoent) ∷ []))
    else some (s, reply_err enoent ∷ [])

-- What follows the test of `fuseserver_setattr` for a file; `to_set` is whether the size is to be
-- set. `none` is an exception.
unfoldable pub set_size : ℕ → ℕ → ℕ → Bool → (ℕ → Tick) → State → Option (State × List Reply)
set_size max_size ino size to_set k s =
    if to_set
    then resized_reply ino (k 3) (set_attr max_size ino size (k 0) (k 1) (k 2) s)
    else some (s, reply_err enosys ∷ [])

-- The replies, the first one in front.
abbrev pub after_reply : Reply → Option (State × List Reply) → Option (State × List Reply)
after_reply r none = none
after_reply r (some (s, replies)) = some (s, r ∷ replies)

unfoldable pub fuseserver_setattr :
    ℕ → ℕ → ℕ → Bool → (ℕ → Tick) → State → Option (State × List Reply)
fuseserver_setattr max_size ino size to_set k s =
    let rest = set_size max_size ino size to_set k s in
    if isfile ino then rest else after_reply (reply_err enosys) rest

-- What the buffer of `fuseserver_read` holds when `readFile` was OK.
abbrev pub filled : Option Bytes → Bytes
filled none = []
filled (some buf) = buf

unfoldable pub fuseserver_read : ℕ → ℕ → ℕ → (ℕ → Tick) → State → State × List Reply
fuseserver_read ino size off k s =
    let (s1, ret, buf) = read_file ino size off (k 0) s in
    (s1, (if is_ok ret then reply_buf (filled buf) else reply_err enosys) ∷ [])

abbrev pub wrote : ℕ → Option (State × Status) → Option (State × List Reply)
wrote size none = none
wrote size (some (s, ret)) =
    some (s, (if is_ok ret then reply_write size else reply_err enosys) ∷ [])

unfoldable pub fuseserver_write :
    ℕ → ℕ → Bytes → ℕ → (ℕ → Tick) → State → Option (State × List Reply)
fuseserver_write max_size ino buf off k s =
    wrote (length buf) (write_file max_size ino buf off (k 0) (k 1) s)

-- `fuseserver_createhelper` after its call of `createFile`: no entry where that did not answer OK,
-- which is NOENT whatever the answer was.
abbrev pub helped : ℕ → Tick → Option (State × Status) → Option (State × Option Entry)
helped inum k none = none
helped inum k (some (s, ret)) =
    if is_ok ret
    then (let (s1, r, st) = getattr inum k s in some (s1, some (entry_of inum st)))
    else some (s, none)

-- `garbage` and `r` are as in `create_file`.
unfoldable pub fuseserver_createhelper :
    ℕ → ℕ → ℕ → Bytes → (ℕ → Tick) → State → Option (State × Option Entry)
fuseserver_createhelper garbage r parent name k s =
    helped (file_inum r) (k 3) (create_file garbage r parent name (k 0) (k 1) (k 2) s)

-- The last lines of `fuseserver_create` and `fuseserver_mknod`.
abbrev pub create_reply :
    (Entry → Reply) → Option (State × Option Entry) → Option (State × List Reply)
create_reply reply none = none
create_reply reply (some (s, none)) = some (s, reply_err enoent ∷ [])
create_reply reply (some (s, some e)) = some (s, reply e ∷ [])

unfoldable pub fuseserver_create :
    ℕ → ℕ → ℕ → Bytes → (ℕ → Tick) → State → Option (State × List Reply)
fuseserver_create garbage r parent name k s =
    create_reply reply_create (fuseserver_createhelper garbage r parent name k s)

unfoldable pub fuseserver_mknod :
    ℕ → ℕ → ℕ → Bytes → (ℕ → Tick) → State → Option (State × List Reply)
fuseserver_mknod garbage r parent name k s =
    create_reply reply_entry (fuseserver_createhelper garbage r parent name k s)

abbrev pub looked_up : Tick → Option (State × Status × ℕ) → Option (State × List Reply)
looked_up k none = none
looked_up k (some (s, ret, inum)) =
    if not (inum == 0)
    then (let (s1, r, st) = getattr inum k s in some (s1, reply_entry (entry_of inum st) ∷ []))
    else some (s, reply_err enoent ∷ [])

unfoldable pub fuseserver_lookup : ℕ → ℕ → Bytes → (ℕ → Tick) → State → Option (State × List Reply)
fuseserver_lookup garbage parent name k s =
    looked_up (k 1) (lookup_resource garbage parent name (k 0) s)

-- The bytes of one entry, as `fuse_add_dirent` writes them for a name, a number and the place of
-- the next entry; and their number, as `fuse_dirent_size` gives it for a name of a length.
pub record DirentFormat : Type 0 where
  pub fuse_dirent_size : ℕ → ℕ
  pub fuse_add_dirent : Bytes → ℕ → ℕ → Bytes

unfoldable pub dirbuf_add : DirentFormat → Bytes → Bytes → ℕ → Bytes
dirbuf_add format b name ino =
    b
    ++ format.fuse_add_dirent (c_str name) ino
        (length b + format.fuse_dirent_size (length (c_str name)))

unfoldable pub reply_buf_limited : Bytes → ℕ → ℕ → Reply
reply_buf_limited buf off maxsize =
    if ltb off (length buf) then reply_buf (take maxsize (drop off buf)) else reply_buf []

-- The loop of `fuseserver_readdir` over the entries.
unfoldable pub add_all : DirentFormat → Bytes → List Dirent → Bytes
add_all format b [] = b
add_all format b (e ∷ es) = add_all format (dirbuf_add format b e.name e.inum) es

abbrev pub listed :
    DirentFormat → ℕ → ℕ → State → Option (List Dirent) → Option (State × List Reply)
listed format size off s none = none
listed format size off s (some contents) =
    some (s, reply_buf_limited (add_all format [] contents) off size ∷ [])

unfoldable pub fuseserver_readdir :
    DirentFormat → ℕ → ℕ → ℕ → ℕ → (ℕ → Tick) → State → Option (State × List Reply)
fuseserver_readdir format garbage ino size off k s =
    if not (isdir ino)
    then some (s, reply_err enotdir ∷ [])
    else (let (s1, ret, buf) = get_dir_contents ino (k 0) s in
        listed format size off s1 (parsebuf garbage buf))

abbrev pub made : ℕ → Tick → Option (State × Status) → Option (State × List Reply)
made inum k none = none
made inum k (some (s, ret)) =
    if is_ok ret
    then (let (s1, r, st) = getattr inum k s in some (s1, reply_entry (entry_of inum st) ∷ []))
    else some (s, reply_err e_exist ∷ [])

unfoldable pub fuseserver_mkdir :
    ℕ → ℕ → ℕ → Bytes → (ℕ → Tick) → State → Option (State × List Reply)
fuseserver_mkdir garbage r parent name k s =
    made (dir_inum r) (k 3) (create_directory garbage r parent name (k 0) (k 1) (k 2) s)

abbrev pub unlinked : Option (State × Status) → Option (State × List Reply)
unlinked none = none
unlinked (some (s, ret)) = some (s, reply_err (if is_ok ret then success else enoent) ∷ [])

unfoldable pub fuseserver_unlink : ℕ → ℕ → Bytes → (ℕ → Tick) → State → Option (State × List Reply)
fuseserver_unlink garbage parent name k s = unlinked (unlink_file garbage parent name (k 0) (k 1) s)

abbrev pub fuseserver_open : State → State × List Reply
fuseserver_open s = (s, reply_open ∷ [])

abbrev pub fuseserver_statfs : State → State × List Reply
fuseserver_statfs s = (s, reply_statfs 255 512 ∷ [])
