-- ===== src/Lock/Plain.antt =====
-- `lock_server` of lock_server.h and lock_server.cc: the lock server without a cache. A client whose
-- lock another one has waits, with `sync_root` given up, until it looks again.
use simple_distributed_files.Prelude.{
  ℕ, ◌+◌, ◌%◌, ◌^◌, Bool, true, false, List, [], ◌∷◌, Option, none, some, ◌==◌, if◌then◌else◌, Dict,
  lookup, insert,
}

-- `UNLOCKED`, which no client's number is.
abbrev pub unlocked : ℕ
unlocked = 999999999

pub record LockInfo : Type 0 where
  pub acquire_count : ℕ
  pub clt : ℕ

pub record Server : Type 0 where
  pub nacquire : ℕ
  pub lock_list : Dict LockInfo

abbrev pub server_new : Server
server_new = record { nacquire = 0; lock_list = [] }

unfoldable pub stat : Server → ℕ
stat s = s.nacquire

-- `none` while the client waits.
unfoldable pub acquire : ℕ → ℕ → Server → Option Server
acquire clt lid s = elim (lookup lid s.lock_list) [
  | none ↦
      some
        (record s { lock_list = insert lid (record { acquire_count = 1; clt = clt }) s.lock_list })
  | some l ↦
      if l.clt == unlocked
      then some (record s {
        lock_list =
            insert lid (record { acquire_count = (l.acquire_count + 1) % 2 ^ 32; clt = clt })
              s.lock_list;
      })
      else none
]

-- Whether the answer is OK rather than IOERR; `none` is a lock without a record, which is followed.
unfoldable pub release : ℕ → ℕ → Server → Option (Server × Bool)
release clt lid s = elim (lookup lid s.lock_list) [
  | none ↦ none
  | some l ↦
      if l.clt == clt
      then some
          (record s { lock_list = insert lid (record l { clt = unlocked }) s.lock_list }, true)
      else some (s, false)
]

-- One request that the server serves: a client that waits is served when it looks again.
pub data Request : Type 0 where
  acquires releases : ℕ → ℕ → Request

abbrev pub with_status : Option Server → Option (Server × Bool)
with_status none = none
with_status (some s) = some (s, true)

unfoldable pub serve : Request → Server → Option (Server × Bool)
serve (acquires clt lid) s = with_status (acquire clt lid s)
serve (releases clt lid) s = release clt lid s

unfoldable pub serve_all : List Request → Server → Option Server
serve_all [] s = some s
serve_all (q ∷ qs) s = elim (serve q s) [ none ↦ none | some (s', st) ↦ serve_all qs s' ]
