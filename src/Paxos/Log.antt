-- ===== src/Paxos/Log.antt =====
-- `log` of log.h and log.cc, read back: `logread`, `dump`, `restore`, and the constructor of
-- `acceptor` in paxos.cc, which starts by reading the log file that an earlier run has left.
use simple_distributed_files.Prelude.{
  ℕ, zero, suc, Bool, true, false, ◌&&◌, [], ◌∷◌, ◌++◌, Option, none, some, Bytes, codes, ◌==◌,
  if◌then◌else◌, str_eq, length,
}
use simple_distributed_files.Text.Stream.{Stream, open_text, read_word, read_num, get, getline}
use simple_distributed_files.Paxos.Acceptor.{Acceptor, update, u32_mod, loginstance}

-- One round of `logread`'s loop: `type` is the word read, `i` the local variable `instance`.
unfoldable pub read_record : Acceptor → Bytes → ℕ → Stream → Option (Acceptor × ℕ × Stream)
read_record a type i s =
    if str_eq type (codes "done")
    then (let (j, s1) = read_num u32_mod i s in
        let (v, s2) = getline 10 [] (get s1) in
        some (
          record a {
            values = update a.values j v;
            instance_h = j;
            v_a = [];
            n_h = record a.n_h { n = 0 };
            n_a = record a.n_a { n = 0 };
          },
          j,
          s2,
        ))
    else if str_eq type (codes "propseen")
    then (let (n, s1) = read_num u32_mod a.n_h.n s in
        let (m, s2) = read_word a.n_h.m s1 in
        some (record a { n_h = record { n = n; m = m } }, i, s2))
    else if str_eq type (codes "accepted")
    then (let (n, s1) = read_num u32_mod a.n_a.n s in
        let (m, s2) = read_word a.n_a.m s1 in
        let (v, s3) = getline 10 [] (get s2) in
        some (record a { n_a = record { n = n; m = m }; v_a = v }, i, s3))
    else none

-- `while (from >> type)`. Each round takes at least one character, so the length of the file and
-- one more is fuel enough.
unfoldable pub read_records : ℕ → Acceptor → Bytes → ℕ → Stream → Option Acceptor
read_records zero a type i s = none
read_records (suc f) a type i s =
    let (word, s1) = read_word type s in
    elim s1.good [
      | false ↦ some a
      | true ↦ elim (read_record a word i s1) [
        | none ↦ none
        | some (a', j, s2) ↦ read_records f a' word j s2
      ]
    ]

-- `garbage` is what the uninitialised local `instance` holds.
unfoldable pub logread : ℕ → Acceptor → Option Acceptor
logread garbage a = read_records (suc (length a.file)) a [] garbage (open_text a.file)

-- `dump`: each line read is followed by a newline.
unfoldable pub dump_lines : ℕ → Bytes → Stream → Bytes
dump_lines zero v s = []
dump_lines (suc f) v s =
    let (line, s1) = getline 10 v s in
    elim s1.good [ false ↦ [] | true ↦ line ++ (10 ∷ dump_lines f line s1) ]

unfoldable pub dump : Acceptor → Bytes
dump a = dump_lines (suc (length a.file)) [] (open_text a.file)

-- `acceptor::restore`: the file is replaced and read over the state in memory.
unfoldable pub restore : ℕ → Bytes → Acceptor → Option Acceptor
restore garbage t a = logread garbage (record a { file = t })

abbrev pub blank : Bool → Bytes → Bytes → Acceptor
blank cfg me file = record {
  cfg = cfg;
  me = me;
  n_h = record { n = 0; m = me };
  n_a = record { n = 0; m = me };
  v_a = [];
  instance_h = 0;
  values = λ _. [];
  file = file;
  upcalls = [];
}

abbrev pub first_instance : Bool → Bytes → Acceptor → Acceptor
first_instance first value a =
    if a.instance_h == 0 && first
    then record (loginstance 1 value a) { values = update a.values 1 value; instance_h = 1 }
    else a

-- The constructor, over the file that it finds.
unfoldable pub acceptor_new : Bool → Bool → Bytes → Bytes → Bytes → ℕ → Option Acceptor
acceptor_new cfg first me value file garbage = elim (logread garbage (blank cfg me file)) [
  | none ↦ none
  | some a ↦ some (first_instance first value a)
]
