-- ===== src/Fuse/Tests.antt =====
-- The handlers of fuse.cc at concrete requests.
use simple_distributed_files.Prelude.{
  ℕ, ◌^◌, ◌-◌, ◌≡◌, refl, true, [], ◌∷◌, ◌++◌, some, arith, length, false, ◌+◌, take, replicate,
}
use simple_distributed_files.Extent.Server.{Times}
use simple_distributed_files.Extent.Server
use simple_distributed_files.Extent.Client
use simple_distributed_files.Yfs.Directory.{Dirent, parsebuf, write_dirent, isfile, isdir}
use simple_distributed_files.Yfs.Listing.{IsEntry, parsebuf-write_dirent}
use simple_distributed_files.Yfs.Client.{State, Tick, get_dir_contents}
use simple_distributed_files.Fuse.{
  reply_err, reply_buf, reply_attr, Stat, s_ifreg, enosys, DirentFormat, fuseserver_setattr,
  set_size, fuseserver_readdir,
}
use simple_distributed_files.Fuse.Replies.{setattr_of, fuseserver_oper, replies_once}
use simple_distributed_files.Fuse.Listing.{listing, place_after, readdir_resumes}
use simple_distributed_files.Fuse.Files.{fuse_set_size}

-- A longest string.
abbrev string_max : ℕ
string_max = 2 ^ 63 - 1

abbrev clock : Times
clock = record { a = 9; c = 9; m = 9 }

abbrev ticks : ℕ → Tick
ticks i = record { server = 9; client = 9; times = clock }

abbrev song : Dirent
song = record { name = 97 ∷ 98 ∷ []; inum = 2147483650 }

abbrev poem : Dirent
poem = record { name = 99 ∷ []; inum = 7 }

-- The root directory with two entries, and the song's text.
abbrev state : State
state = record {
  ec = record {
    extent_list = [];
    server =
        (Server.put 2147483650 (108 ∷ []) clock
          (Server.put 1 (write_dirent (song ∷ poem ∷ [])) clock []).0).0;
  };
  locks = [];
}

-- Eight zeros and the name.
abbrev format : DirentFormat
format = record {
  fuse_dirent_size = λ n. 8 + n;
  fuse_add_dirent = λ name ino off. replicate 8 0 ++ name;
}

-- The size of the root directory is asked to be set.
replies_once_example : length (reply_err enosys ∷ reply_err enosys ∷ []) ≡ 2
unfolding fuseserver_oper fuseserver_setattr set_size isfile
replies_once_example =
    replies_once string_max format 0 (setattr_of 1 0 false) ticks state state
      (reply_err enosys ∷ reply_err enosys ∷ []) refl

root_isdir : isdir 1 ≡ true
unfolding isdir isfile
root_isdir = refl

proper : IsEntry song × IsEntry poem
proper = (
  record {
    small = omega arith;
    named = tt;
    whole = (refl, (refl, tt));
    plain = (refl, (refl, tt));
    text = (refl, (refl, tt));
  },
  record {
    small = omega arith;
    named = tt;
    whole = (refl, tt);
    plain = (refl, tt);
    text = (refl, tt);
  },
)

root_parsed : parsebuf 0 (get_dir_contents 1 (ticks 0) state).2 ≡ some (song ∷ poem ∷ [])
unfolding get_dir_contents Client.get Server.get Server.put
root_parsed = parsebuf-write_dirent 0 (song ∷ poem ∷ []) (proper.0, (proper.1, tt))

-- The second entry, which starts at ten.
readdir_resumes_example :
    fuseserver_readdir format 0 1 9 (place_after format 0 (song ∷ [])) ticks state
    ≡ some (
      (get_dir_contents 1 (ticks 0) state).0,
      reply_buf (take 9 (listing format (place_after format 0 (song ∷ [])) (poem ∷ []))) ∷ [],
    )
readdir_resumes_example =
    readdir_resumes format 0 1 9 ticks state (song ∷ []) (poem ∷ []) (λ name ino off. omega arith)
      root_isdir root_parsed

fuse_set_size_example :
    (s' : State) × (st : Stat) × (fuseserver_setattr string_max 2147483650 5 true ticks state
      ≡ some (s', reply_attr st ∷ []))
    × (st.ino ≡ 2147483650)
    × (st.mode ≡ s_ifreg 438)
    × (st.size ≡ 5)
unfolding Client.getattr Client.fetch Server.get Server.getattr Server.put isfile
fuse_set_size_example =
    fuse_set_size string_max 2147483650 5 ticks state (omega arith) (omega arith) refl refl
