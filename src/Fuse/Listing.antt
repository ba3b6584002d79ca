-- ===== src/Fuse/Listing.antt =====
-- How `fuseserver_readdir` of fuse.cc gives a directory in parts.
use simple_distributed_files.Prelude.{
  ℕ, zero, suc, ◌+◌, ◌≤◌, ◌≡◌, refl, sym, ap, ◌∙◌, inl, inr, true, List, [], ◌∷◌, ◌++◌,
  append_assoc, append-nil, some, Bytes, arith, ltb, length, take, length-append, drop-append,
  Bool-cases,
}
use simple_distributed_files.Yfs.Directory.{Dirent, isdir, c_str, parsebuf}
use simple_distributed_files.Yfs.Client.{State, Tick, get_dir_contents}
use simple_distributed_files.Fuse.{
  reply_buf, DirentFormat, dirbuf_add, add_all, reply_buf_limited, fuseserver_readdir,
}

-- An entry is as long as its size says.
abbrev pub IsSized : DirentFormat → Type 0
IsSized format =
    (name : Bytes) (ino off : ℕ)
    → length (format.fuse_add_dirent name ino off) ≡ format.fuse_dirent_size (length name)

abbrev pub next_place : DirentFormat → ℕ → Dirent → ℕ
next_place format place e = place + format.fuse_dirent_size (length (c_str e.name))

-- The listing of some entries from a place on: each carries the place where the next one starts.
abbrev pub listing : DirentFormat → ℕ → List Dirent → Bytes
listing format place [] = []
listing format place (e ∷ es) =
    format.fuse_add_dirent (c_str e.name) e.inum (next_place format place e)
    ++ listing format (next_place format place e) es

-- The place after some entries.
abbrev pub place_after : DirentFormat → ℕ → List Dirent → ℕ
place_after format place [] = place
place_after format place (e ∷ es) = place_after format (next_place format place e) es

add_all-listing :
    (format : DirentFormat) (b : Bytes) (es : List Dirent)
    → IsSized format
    → add_all format b es ≡ b ++ listing format (length b) es
unfolding add_all dirbuf_add
add_all-listing format b [] h = sym (append-nil b)
add_all-listing format b (e ∷ es) h =
    let d = format.fuse_add_dirent (c_str e.name) e.inum (next_place format (length b) e) in
    let long : length (b ++ d) ≡ next_place format (length b) e =
      omega (arith, length-append b d, h (c_str e.name) e.inum (next_place format (length b) e)) in
    add_all-listing format (b ++ d) es h
    ∙ ap (λ n. (b ++ d) ++ listing format n es) long
    ∙ append_assoc b d (listing format (next_place format (length b) e) es)

listing-append :
    (format : DirentFormat) (place : ℕ) (xs ys : List Dirent)
    → listing format place (xs ++ ys)
      ≡ listing format place xs ++ listing format (place_after format place xs) ys
listing-append format place [] ys = refl
listing-append format place (x ∷ xs) ys =
    ap (λ r. format.fuse_add_dirent (c_str x.name) x.inum (next_place format place x) ++ r)
      (listing-append format (next_place format place x) xs ys)
    ∙ sym (
        append_assoc (format.fuse_add_dirent (c_str x.name) x.inum (next_place format place x))
          (listing format (next_place format place x) xs)
          (listing format (place_after format (next_place format place x) xs) ys))

length-listing :
    (format : DirentFormat) (place : ℕ) (xs : List Dirent)
    → IsSized format
    → place + length (listing format place xs) ≡ place_after format place xs
length-listing format place [] h = omega arith
length-listing format place (x ∷ xs) h =
    let next = next_place format place x in
    omega (
      arith,
      length-append (format.fuse_add_dirent (c_str x.name) x.inum next) (listing format next xs),
      h (c_str x.name) x.inum next,
      length-listing format next xs h,
    )

no_more : (xs ys : Bytes) → length (xs ++ ys) ≤ length xs → ys ≡ []
no_more [] [] h = refl
no_more [] (y ∷ ys) h = absurd (omega (arith, h))
no_more (x ∷ xs) ys h = no_more xs ys (omega (arith, h))

take_nil : (n : ℕ) → take {A = ℕ} n [] ≡ []
take_nil zero = refl
take_nil (suc n) = refl

limited :
    (xs ys : Bytes) (size : ℕ)
    → reply_buf_limited (xs ++ ys) (length xs) size ≡ reply_buf (take size ys)
unfolding reply_buf_limited
limited xs ys size = elim (Bool-cases (ltb (length xs) (length (xs ++ ys)))) [
  | inl e ↦ rw e (ap (λ r. reply_buf (take size r)) (drop-append xs ys))
  | inr e ↦ rw e (
      ap reply_buf
        (sym (take_nil size) ∙ ap (λ r. take size r) (sym (no_more xs ys (ground (arith, e))))))
]

-- A directory is read in parts: where its text gives some entries and then others, `readdir` at the
-- place that the last of the first entries carries answers with the listing of the others, cut at
-- the size that was asked for; at the place zero with the whole listing. An entry of the FUSE
-- library is as long as the library says.
pub readdir_resumes :
    (format : DirentFormat) (garbage ino size : ℕ) (k : ℕ → Tick) (s : State) (xs ys : List Dirent)
    → IsSized format
    → isdir ino ≡ true
    → parsebuf garbage (get_dir_contents ino (k 0) s).2 ≡ some (xs ++ ys)
    → fuseserver_readdir format garbage ino size (place_after format 0 xs) k s
      ≡ some (
        (get_dir_contents ino (k 0) s).0,
        reply_buf (take size (listing format (place_after format 0 xs) ys)) ∷ [],
      )
unfolding fuseserver_readdir
readdir_resumes format garbage ino size k s xs ys h dir parsed =
    let whole : add_all format [] (xs ++ ys)
        ≡ listing format 0 xs ++ listing format (place_after format 0 xs) ys =
      add_all-listing format [] (xs ++ ys) h ∙ listing-append format 0 xs ys in
    let here : place_after format 0 xs ≡ length (listing format 0 xs) =
      omega (arith, length-listing format 0 xs h) in
    rw (dir, parsed, whole)
      (ap (λ r. some ((get_dir_contents ino (k 0) s).0, r ∷ []))
        (ap
            (λ n.
              reply_buf_limited (listing format 0 xs ++ listing format (place_after format 0 xs) ys)
                n size)
            here
          ∙ limited (listing format 0 xs) (listing format (place_after format 0 xs) ys) size))
