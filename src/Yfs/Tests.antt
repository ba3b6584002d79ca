-- ===== src/Yfs/Tests.antt =====
-- Directories at concrete inputs.
use simple_distributed_files.Prelude.{
  ℕ, ◌^◌, ◌-◌, ◌+◌, Option, none, str_eq, ◌≡◌, refl, [], ◌∷◌, some, arith,
}
use simple_distributed_files.Yfs.Directory.{Dirent, parsebuf, write_dirent}
use simple_distributed_files.Yfs.Listing.{IsEntry, parsebuf-write_dirent}
use simple_distributed_files.Extent.Server.{Times}
use simple_distributed_files.Extent.Server
use simple_distributed_files.Extent.Client
use simple_distributed_files.Yfs.Client.{
  State, Status, Tick, ok, noent, create_file, write_file, read_file, unlink_file,
}
use simple_distributed_files.Yfs.ReadBack.{write_file-read_file}
use simple_distributed_files.Yfs.Directory.{erase_file}
use simple_distributed_files.Yfs.Client.{lookup_resource, file_inum, has_entry}
use simple_distributed_files.Yfs.Naming.{entry, create_file-lookup_resource}
use simple_distributed_files.Yfs.Leaks.{unlink_file-leaks}
use simple_distributed_files.Yfs.Locks.{held, kept, files, run_op, run_op-kept}
use simple_distributed_files.Extent.Server.{stored}
use simple_distributed_files.Yfs.Directory.{isfile}

abbrev song : Dirent
song = record { name = 97 ∷ 98 ∷ []; inum = 2147483650 }

abbrev poem : Dirent
poem = record { name = 99 ∷ []; inum = 7 }

song-IsEntry : IsEntry song
song-IsEntry = record {
  small = omega arith;
  named = tt;
  whole = (refl, (refl, tt));
  plain = (refl, (refl, tt));
  text = (refl, (refl, tt));
}

poem-IsEntry : IsEntry poem
poem-IsEntry = record {
  small = omega arith;
  named = tt;
  whole = (refl, tt);
  plain = (refl, tt);
  text = (refl, tt);
}

parsebuf-write_dirent_example :
    parsebuf 0 (write_dirent (song ∷ poem ∷ [])) ≡ some (song ∷ poem ∷ [])
parsebuf-write_dirent_example =
    parsebuf-write_dirent 0 (song ∷ poem ∷ []) (song-IsEntry, (poem-IsEntry, tt))

new_file-IsEntry : IsEntry (entry (file_inum 7) (99 ∷ []))
unfolding file_inum isfile
new_file-IsEntry = record {
  small = omega arith;
  named = tt;
  whole = (refl, tt);
  plain = (refl, tt);
  text = (refl, tt);
}

-- A longest string.
abbrev string_max : ℕ
string_max = 2 ^ 63 - 1

abbrev clock : Times
clock = record { a = 9; c = 9; m = 9 }

abbrev tick : Tick
tick = record { server = 9; client = 9; times = clock }

-- The root directory with the song in it, which the server has.
abbrev state : State
state = record {
  ec = record {
    extent_list = [];
    server =
        (Server.put 2147483650 (108 ∷ []) clock
          (Server.put 1 (write_dirent (song ∷ [])) clock []).0).0;
  };
  locks = [];
}

abbrev state_of : Option (State × Status) → State
state_of none = state
state_of (some (s, st)) = s

write_file-read_file_example :
    (s' : State) × (write_file string_max 2147483650 (105 ∷ 106 ∷ []) 3 tick tick state
      ≡ some (s', ok))
    × ((read_file 2147483650 2 3 tick s').1 ≡ ok)
    × ((read_file 2147483650 2 3 tick s').2 ≡ some (105 ∷ 106 ∷ []))
unfolding Client.get Server.get Server.put
write_file-read_file_example =
    write_file-read_file string_max 2147483650 (105 ∷ 106 ∷ []) 3 tick tick tick state (omega arith)
      (omega arith) refl

-- A root directory with nothing in it.
abbrev empty : State
empty = record {
  ec = record { extent_list = []; server = (Server.put 1 [] clock []).0 };
  locks = [];
}

abbrev made : State
made = state_of (create_file 0 7 1 (99 ∷ []) tick tick tick empty)

create_file-lookup_resource_example :
    (s' s'' : State) × (create_file 0 7 1 (99 ∷ []) tick tick tick empty ≡ some (s', ok))
    × (lookup_resource 0 1 (99 ∷ []) tick s' ≡ some (s'', ok, file_inum 7))
unfolding Client.get Server.get Server.put write_dirent has_entry
create_file-lookup_resource_example =
    create_file-lookup_resource 0 0 7 1 (99 ∷ []) tick tick tick tick empty [] refl refl tt
      new_file-IsEntry refl refl

-- The parent is not there.
abbrev orphaned : State
orphaned = state_of (create_file 0 7 5 (99 ∷ []) tick tick tick empty)

run_op-kept_example :
    held orphaned.locks 5 ≡ kept (files 0 7 5 (99 ∷ []) tick tick tick) noent 5 + held [] 5
unfolding run_op create_file Client.get Server.get Server.put
run_op-kept_example =
    run_op-kept string_max (files 0 7 5 (99 ∷ []) tick tick tick) empty orphaned noent 5 refl

unlink_file-leaks_example :
    (s' : State) × (unlink_file 0 1 (97 ∷ 98 ∷ []) tick tick state ≡ some (s', ok))
    × (stored 2147483650 s'.ec.server ≡ stored 2147483650 state.ec.server)
unfolding erase_file str_eq isfile Client.get Server.get Server.put
unlink_file-leaks_example =
    unlink_file-leaks 0 1 (97 ∷ 98 ∷ []) tick tick state (song ∷ []) [] 2147483650 refl
      (parsebuf-write_dirent 0 (song ∷ []) (song-IsEntry, tt)) refl (λ e. omega (arith, e)) refl
