-- ===== src/Yfs/Locks.antt =====
-- The locks that the operations of yfs_client.cc take: each is given back, on every path but one.
use simple_distributed_files.Prelude.{
  ℕ, suc, ◌+◌, ◌-◌, ◌≡◌, List, [], ◌∷◌, Option, none, some, arith, Bytes, ◌==◌, if◌then◌else◌,
}
use simple_distributed_files.Yfs.Client.{
  State, Status, Tick, noent, LockEvent, acquired, released, getfile, getdir, create_file,
  create_directory, unlink_file, lookup_resource, get_dir_contents, set_attr, write_file, read_file,
  add_entry,
}

-- How often a lock is held after the events, the latest first.
unfoldable pub held : List LockEvent → ℕ → ℕ
held [] j = 0
held (acquired lid ∷ es) j = if j == lid then suc (held es j) else held es j
held (released lid ∷ es) j = if j == lid then held es j - 1 else held es j

pub data Op : Type 0 where
  getfiles getdirs dirs : ℕ → Tick → Op
  files directories : ℕ → ℕ → ℕ → Bytes → Tick → Tick → Tick → Op
  unlinks : ℕ → ℕ → Bytes → Tick → Tick → Op
  lookups : ℕ → ℕ → Bytes → Tick → Op
  attrs : ℕ → ℕ → Tick → Tick → Tick → Op
  writes : ℕ → Bytes → ℕ → Tick → Tick → Op
  reads : ℕ → ℕ → ℕ → Tick → Op

abbrev first_two : {A : Type 0} → Option (State × Status × A) → Option (State × Status)
first_two none = none
first_two (some (s, st, a)) = some (s, st)

unfoldable pub run_op : ℕ → Op → State → Option (State × Status)
run_op max_size (getfiles inum k) s = some ((getfile inum k s).0, (getfile inum k s).1)
run_op max_size (getdirs inum k) s = some ((getdir inum k s).0, (getdir inum k s).1)
run_op max_size (dirs inum k) s =
    some ((get_dir_contents inum k s).0, (get_dir_contents inum k s).1)
run_op max_size (files g r parent buf k k1 k2) s = create_file g r parent buf k k1 k2 s
run_op max_size (directories g r parent buf k k1 k2) s = create_directory g r parent buf k k1 k2 s
run_op max_size (unlinks g parent buf k k1) s = unlink_file g parent buf k k1 s
run_op max_size (lookups g parent buf k) s = first_two (lookup_resource g parent buf k s)
run_op max_size (attrs inum size k k1 k2) s = set_attr max_size inum size k k1 k2 s
run_op max_size (writes inum buf off k k1) s = write_file max_size inum buf off k k1 s
run_op max_size (reads inum size off k) s =
    some ((read_file inum size off k s).0, (read_file inum size off k s).1)

-- The path that keeps a lock: `createFile` under a parent that is not there.
abbrev pub kept : Op → Status → ℕ → ℕ
kept (files g r parent buf k k1 k2) noent j = if j == parent then 1 else 0
kept o st j = 0

module _ (s s' : State) (st : Status) (j : ℕ) where
  create_file-kept :
      (g r parent : ℕ) (buf : Bytes) (k k1 k2 : Tick)
      → create_file g r parent buf k k1 k2 s ≡ some (s', st)
      → held s'.locks j ≡ kept (files g r parent buf k k1 k2) st j + held s.locks j
  unfolding create_file held add_entry
  create_file-kept g r parent buf k k1 k2 e = ground (arith, e)

  create_directory-kept :
      (g r parent : ℕ) (buf : Bytes) (k k1 k2 : Tick)
      → create_directory g r parent buf k k1 k2 s ≡ some (s', st)
      → held s'.locks j ≡ 0 + held s.locks j
  unfolding create_directory held add_entry
  create_directory-kept g r parent buf k k1 k2 e = ground (arith, e)

  unlink_file-kept :
      (g parent : ℕ) (buf : Bytes) (k k1 : Tick)
      → unlink_file g parent buf k k1 s ≡ some (s', st)
      → held s'.locks j ≡ 0 + held s.locks j
  unfolding unlink_file held
  unlink_file-kept g parent buf k k1 e = ground (arith, e)

-- Every operation that no exception ends gives back what it took, on every path, but
-- `createFile` where the parent is not there: that keeps the parent's lock.
pub run_op-kept :
    (max_size : ℕ) (o : Op) (s s' : State) (st : Status) (j : ℕ)
    → run_op max_size o s ≡ some (s', st)
    → held s'.locks j ≡ kept o st j + held s.locks j
unfolding run_op getfile getdir get_dir_contents lookup_resource set_attr write_file read_file held
run_op-kept max_size (getfiles inum k) s s' st j e = ground (arith, e)
run_op-kept max_size (getdirs inum k) s s' st j e = ground (arith, e)
run_op-kept max_size (dirs inum k) s s' st j e = ground (arith, e)
run_op-kept max_size (files g r parent buf k k1 k2) s s' st j e =
    create_file-kept s s' st j g r parent buf k k1 k2 e
run_op-kept max_size (directories g r parent buf k k1 k2) s s' st j e =
    create_directory-kept s s' st j g r parent buf k k1 k2 e
run_op-kept max_size (unlinks g parent buf k k1) s s' st j e =
    unlink_file-kept s s' st j g parent buf k k1 e
run_op-kept max_size (lookups g parent buf k) s s' st j e = ground (arith, e)
run_op-kept max_size (attrs inum size k k1 k2) s s' st j e = ground (arith, e)
run_op-kept max_size (writes inum buf off k k1) s s' st j e = ground (arith, e)
run_op-kept max_size (reads inum size off k) s s' st j e = ground (arith, e)
