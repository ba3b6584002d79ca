-- ===== src/Fuse/Replies.antt =====
-- How many replies a request gets from fuse.cc.
use simple_distributed_files.Prelude.{
  ℕ, ◌≡◌, refl, subst, inl, inr, Bool, true, false, not, List, Option, none, some, Bytes, arith,
  if◌then◌else◌, length, Bool-cases,
}
use simple_distributed_files.Yfs.Directory.{Dirent, isfile, isdir, parsebuf}
use simple_distributed_files.Yfs.Client.{
  State, Status, Tick, create_directory, unlink_file, lookup_resource, get_dir_contents, write_file,
  set_attr,
}
use simple_distributed_files.Fuse.{
  Entry, Reply, reply_create, reply_entry, is_ok, set_size, resized_reply, after_reply, reply_err,
  enosys, create_reply, looked_up, listed, made, unlinked, wrote, DirentFormat, fuseserver_getattr,
  fuseserver_setattr, fuseserver_read, fuseserver_write, fuseserver_createhelper, fuseserver_create,
  fuseserver_mknod, fuseserver_lookup, fuseserver_readdir, fuseserver_mkdir, fuseserver_unlink,
  fuseserver_open, fuseserver_statfs,
}

-- The requests for which a handler is registered.
pub data Request : Type 0 where
  getattr_of : ℕ → Request
  setattr_of : ℕ → ℕ → Bool → Request
  read_of : ℕ → ℕ → ℕ → Request
  write_of : ℕ → Bytes → ℕ → Request
  create_in mknod_in mkdir_in : ℕ → ℕ → Bytes → Request
  lookup_in unlink_in : ℕ → Bytes → Request
  readdir_of : ℕ → ℕ → ℕ → Request
  open_of statfs_of : Request

-- The handler of each kind of request, in the table `fuseserver_oper`.
unfoldable pub fuseserver_oper :
    ℕ → DirentFormat → ℕ → Request → (ℕ → Tick) → State → Option (State × List Reply)
fuseserver_oper max_size format garbage (getattr_of ino) k s = some (fuseserver_getattr ino k s)
fuseserver_oper max_size format garbage (setattr_of ino size to_set) k s =
    fuseserver_setattr max_size ino size to_set k s
fuseserver_oper max_size format garbage (read_of ino size off) k s =
    some (fuseserver_read ino size off k s)
fuseserver_oper max_size format garbage (write_of ino buf off) k s =
    fuseserver_write max_size ino buf off k s
fuseserver_oper max_size format garbage (create_in r parent name) k s =
    fuseserver_create garbage r parent name k s
fuseserver_oper max_size format garbage (mknod_in r parent name) k s =
    fuseserver_mknod garbage r parent name k s
fuseserver_oper max_size format garbage (mkdir_in r parent name) k s =
    fuseserver_mkdir garbage r parent name k s
fuseserver_oper max_size format garbage (lookup_in parent name) k s =
    fuseserver_lookup garbage parent name k s
fuseserver_oper max_size format garbage (unlink_in parent name) k s =
    fuseserver_unlink garbage parent name k s
fuseserver_oper max_size format garbage (readdir_of ino size off) k s =
    fuseserver_readdir format garbage ino size off k s
fuseserver_oper max_size format garbage open_of k s = some (fuseserver_open s)
fuseserver_oper max_size format garbage statfs_of k s = some (fuseserver_statfs s)

-- How many replies a request gets.
abbrev pub reply_count : Request → ℕ
reply_count (setattr_of ino size to_set) = if isfile ino then 1 else 2
reply_count _ = 1

-- So many replies, unless the program ended.
abbrev Counts : ℕ → Option (State × List Reply) → Type 0
Counts n none = Unit
Counts n (some (s, rs)) = length rs ≡ n

create_reply_one :
    (reply : Entry → Reply) (o : Option (State × Option Entry)) → Counts 1 (create_reply reply o)
create_reply_one reply none = tt
create_reply_one reply (some (s, none)) = refl
create_reply_one reply (some (s, some e)) = refl

wrote_one : (size : ℕ) (o : Option (State × Status)) → Counts 1 (wrote size o)
wrote_one size none = tt
wrote_one size (some (s, ret)) = refl

made_one : (inum : ℕ) (k : Tick) (o : Option (State × Status)) → Counts 1 (made inum k o)
made_one inum k none = tt
made_one inum k (some (s, ret)) = elim (Bool-cases (is_ok ret)) [
  | inl e ↦ rw e refl
  | inr e ↦ rw e refl
]

unlinked_one : (o : Option (State × Status)) → Counts 1 (unlinked o)
unlinked_one none = tt
unlinked_one (some (s, ret)) = refl

looked_up_one : (k : Tick) (o : Option (State × Status × ℕ)) → Counts 1 (looked_up k o)
looked_up_one k none = tt
looked_up_one k (some (s, ret, inum)) = ground arith

listed_one :
    (format : DirentFormat) (size off : ℕ) (s : State) (o : Option (List Dirent))
    → Counts 1 (listed format size off s o)
listed_one format size off s none = tt
listed_one format size off s (some contents) = refl

resized_reply_one :
    (ino : ℕ) (k : Tick) (o : Option (State × Status)) → Counts 1 (resized_reply ino k o)
resized_reply_one ino k none = tt
resized_reply_one ino k (some (s, ret)) = elim (Bool-cases (is_ok ret)) [
  | inl e ↦ rw e refl
  | inr e ↦ rw e refl
]

set_size_one :
    (max_size ino size : ℕ) (to_set : Bool) (k : ℕ → Tick) (s : State)
    → Counts 1 (set_size max_size ino size to_set k s)
unfolding set_size
set_size_one max_size ino size false k s = refl
set_size_one max_size ino size true k s =
    resized_reply_one ino (k 3) (set_attr max_size ino size (k 0) (k 1) (k 2) s)

after_reply_two :
    (r : Reply) (o : Option (State × List Reply)) → Counts 1 o → Counts 2 (after_reply r o)
after_reply_two r none h = tt
after_reply_two r (some (s, rs)) h = omega (arith, h)

counts_lem :
    (max_size : ℕ) (format : DirentFormat) (garbage : ℕ) (q : Request) (k : ℕ → Tick) (s : State)
    → Counts (reply_count q) (fuseserver_oper max_size format garbage q k s)
unfolding fuseserver_oper fuseserver_getattr fuseserver_setattr fuseserver_read fuseserver_write
    fuseserver_create fuseserver_mknod fuseserver_lookup fuseserver_mkdir fuseserver_unlink
    fuseserver_readdir
counts_lem max_size format garbage (getattr_of ino) k s = refl
counts_lem max_size format garbage (setattr_of ino size to_set) k s =
    elim (Bool-cases (isfile ino)) [
      | inl e ↦ rw e (set_size_one max_size ino size to_set k s)
      | inr e ↦
          rw e (after_reply_two (reply_err enosys) _ (set_size_one max_size ino size to_set k s))
    ]
counts_lem max_size format garbage (read_of ino size off) k s = refl
counts_lem max_size format garbage (write_of ino buf off) k s =
    wrote_one (length buf) (write_file max_size ino buf off (k 0) (k 1) s)
counts_lem max_size format garbage (create_in r parent name) k s =
    create_reply_one reply_create (fuseserver_createhelper garbage r parent name k s)
counts_lem max_size format garbage (mknod_in r parent name) k s =
    create_reply_one reply_entry (fuseserver_createhelper garbage r parent name k s)
counts_lem max_size format garbage (mkdir_in r parent name) k s =
    made_one _ (k 3) (create_directory garbage r parent name (k 0) (k 1) (k 2) s)
counts_lem max_size format garbage (lookup_in parent name) k s =
    looked_up_one (k 1) (lookup_resource garbage parent name (k 0) s)
counts_lem max_size format garbage (unlink_in parent name) k s =
    unlinked_one (unlink_file garbage parent name (k 0) (k 1) s)
counts_lem max_size format garbage (readdir_of ino size off) k s =
    elim (Bool-cases (not (isdir ino))) [
      | inl e ↦ rw e refl
      | inr e ↦ rw e (
          listed_one format size off (get_dir_contents ino (k 0) s).0
            (parsebuf garbage (get_dir_contents ino (k 0) s).2))
    ]
counts_lem max_size format garbage open_of k s = refl
counts_lem max_size format garbage statfs_of k s = refl

-- A request gets exactly one reply from its handler, if the program does not end in an exception:
-- success or failure, in every branch. The exception is `fuseserver_setattr` for a number that is
-- not a file's, which replies twice.
pub replies_once :
    (max_size : ℕ) (format : DirentFormat) (garbage : ℕ) (q : Request) (k : ℕ → Tick) (s s' : State)
    (rs : List Reply)
    → fuseserver_oper max_size format garbage q k s ≡ some (s', rs)
    → length rs ≡ reply_count q
replies_once max_size format garbage q k s s' rs e =
    subst (λ o. Counts (reply_count q) o) e (counts_lem max_size format garbage q k s)
