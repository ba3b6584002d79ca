-- ===== src/Yfs/Directory.antt =====
-- The text of a directory: `createBuffElement`, `split`, `parsebuf`, `parseDirent` and
-- `writeDirent` of yfs_client.cc, and what its operations do with the entries.
use simple_distributed_files.Prelude.{
  ℕ, zero, suc, ◌/◌, ◌%◌, ◌^◌, Bool, true, false, not, ◌&&◌, List, [], ◌∷◌, ◌++◌, Option, none,
  some, Bytes, ◌==◌, if◌then◌else◌, str_eq, length,
}
use simple_distributed_files.Text.Decimal.{dec}
use simple_distributed_files.Text.Stream.{Stream, open_text, read_num, getline}

pub record Dirent : Type 0 where
  pub name : Bytes
  pub inum : ℕ

-- `unsigned long long`
abbrev pub inum_mod : ℕ
inum_mod = 2 ^ 64

abbrev pub elementseperator : ℕ
elementseperator = 47

abbrev pub inumseperator : ℕ
inumseperator = 64

-- `garbage` is the uninitialised `finum`.
unfoldable pub n2i : ℕ → Bytes → ℕ
n2i garbage n = (read_num inum_mod garbage (open_text n)).0

unfoldable pub filename : ℕ → Bytes
filename inum = dec inum

-- `inum & 0x80000000`
unfoldable pub isfile : ℕ → Bool
isfile inum = inum / 2 ^ 31 % 2 == 1

unfoldable pub isdir : ℕ → Bool
isdir inum = not (isfile inum)

-- A C string ends at its first zero.
unfoldable pub c_str : Bytes → Bytes
c_str [] = []
c_str (c ∷ s) = let rest = c_str s in if c == 0 then [] else c ∷ rest

unfoldable pub create_buff_element : ℕ → Bytes → Bytes
create_buff_element inum buf = dec inum ++ (inumseperator ∷ buf)

-- `while (getline(ss, item, delim))`. Each round takes at least one character.
unfoldable pub split_items : ℕ → ℕ → Bytes → Stream → List Bytes
split_items zero delim item s = []
split_items (suc f) delim item s =
    let (line, s1) = getline delim item s in
    elim s1.good [ false ↦ [] | true ↦ line ∷ split_items f delim line s1 ]

unfoldable pub split : Bytes → ℕ → List Bytes
split s delim = split_items (suc (length s)) delim [] (open_text s)

-- `none` is an iterator at the end that is followed.
unfoldable pub dirent_of : ℕ → List Bytes → Option Dirent
dirent_of garbage [] = none
dirent_of garbage (number ∷ []) = none
dirent_of garbage (number ∷ name ∷ rest) = some (record { name = name; inum = n2i garbage number })

unfoldable pub parse_dirent : ℕ → Bytes → Option Dirent
parse_dirent garbage value = dirent_of garbage (split value inumseperator)

abbrev pub and_then : Option Dirent → Option (List Dirent) → Option (List Dirent)
and_then none es = none
and_then (some e) none = none
and_then (some e) (some es) = some (e ∷ es)

unfoldable pub parse_all : ℕ → List Bytes → Option (List Dirent)
parse_all garbage [] = some []
parse_all garbage (item ∷ items) = and_then (parse_dirent garbage item) (parse_all garbage items)

unfoldable pub parsebuf : ℕ → Bytes → Option (List Dirent)
parsebuf garbage buf = parse_all garbage (split buf elementseperator)

abbrev pub element : Dirent → Bytes
element e = create_buff_element e.inum (c_str e.name)

-- The loop of `writeDirent` after its first round.
unfoldable pub write_rest : List Dirent → Bytes
write_rest [] = []
write_rest (e ∷ es) = elementseperator ∷ (element e ++ write_rest es)

unfoldable pub write_dirent : List Dirent → Bytes
write_dirent [] = []
write_dirent (e ∷ es) = element e ++ write_rest es

-- The parent's text after `createFile` and `createDirectory`, whose `contents` were read from it.
unfoldable pub append_element : Bytes → List Dirent → ℕ → Bytes → Bytes
append_element parent_buf contents inum buf =
    if length contents == 0
    then parent_buf ++ create_buff_element inum buf
    else parent_buf ++ (elementseperator ∷ create_buff_element inum buf)

-- The search of `lookupResource`, over the names that `compare` finds equal.
unfoldable pub lookup_name : Bytes → List Dirent → ℕ
lookup_name buf [] = 0
lookup_name buf (e ∷ es) = if str_eq e.name buf then e.inum else lookup_name buf es

-- The loop of `unlinkFile`: the first file of the name, and the entries without it.
unfoldable pub erase_file : Bytes → List Dirent → Option (ℕ × List Dirent)
erase_file buf [] = none
erase_file buf (e ∷ es) =
    let rest = erase_file buf es in
    if str_eq e.name buf && isfile e.inum
    then some (e.inum, es)
    else elim rest [ none ↦ none | some (i, l) ↦ some (i, e ∷ l) ]
