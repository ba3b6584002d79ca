-- ===== src/Extent/Server.antt =====
-- `extent_server` of extent_server.h and extent_server.cc. The handlers run under one mutex; each
-- `time(NULL)` is an argument. `time_t` and lengths are cut to the 32 bits of `unsigned int`.
use simple_distributed_files.Prelude.{
  ℕ, ◌%◌, ◌^◌, [], Option, none, some, Bytes, Dict, lookup, insert, erase, length,
}

pub record Attr : Type 0 where
  pub atime : ℕ
  pub mtime : ℕ
  pub ctime : ℕ
  pub size : ℕ

pub record FileInode : Type 0 where
  pub attributes : Attr
  pub id : ℕ
  pub file_buf : Bytes

-- `extent_protocol::xxstatus`, as far as the server answers it.
pub data Status : Type 0 where
  ok ioerr : Status

abbrev pub Extents : Type 0
Extents = Dict FileInode

-- The clock at the three calls of `time` in `put`.
pub record Times : Type 0 where
  pub a : ℕ
  pub c : ℕ
  pub m : ℕ

abbrev pub attr_of : Times → Bytes → Attr
attr_of t buf = record {
  atime = t.a % 2 ^ 32;
  mtime = t.m % 2 ^ 32;
  ctime = t.c % 2 ^ 32;
  size = length buf % 2 ^ 32;
}

abbrev pub no_attr : Attr
no_attr = record { atime = 0; mtime = 0; ctime = 0; size = 0 }

unfoldable pub put : ℕ → Bytes → Times → Extents → Extents × Status
put id buf t s = elim (lookup id s) [
  | none ↦ (insert id (record { attributes = attr_of t buf; id = id; file_buf = buf }) s, ok)
  | some f ↦ (insert id (record f { attributes = attr_of t buf; file_buf = buf }) s, ok)
]

-- The string that comes in is returned if the file is not there; for an RPC it is empty.
unfoldable pub get : ℕ → Bytes → ℕ → Extents → Extents × Status × Bytes
get id buf now s = elim (lookup id s) [
  | none ↦ (s, ioerr, buf)
  | some f ↦ (
    insert id (record f { attributes = record f.attributes { atime = now % 2 ^ 32 } }) s,
    ok,
    f.file_buf,
  )
]

unfoldable pub getattr : ℕ → Extents → Status × Attr
getattr id s = elim (lookup id s) [ none ↦ (ioerr, no_attr) | some f ↦ (ok, f.attributes) ]

unfoldable pub remove : ℕ → Extents → Extents × Status
remove id s = elim (lookup id s) [ none ↦ (s, ioerr) | some f ↦ (erase id s, ok) ]

-- The constructor stores an empty root directory, number 1.
abbrev pub extent_server_new : Times → Extents
extent_server_new t = (put 1 [] t []).0

-- What the server holds under a number.
abbrev pub stored_in : Option FileInode → Option Bytes
stored_in none = none
stored_in (some f) = some f.file_buf

unfoldable pub stored : ℕ → Extents → Option Bytes
stored id s = stored_in (lookup id s)
