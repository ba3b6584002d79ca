-- ===== src/Yfs/Listing.antt =====
-- A directory's text holds its entries: what is written is read back, and a new entry stands last.
use simple_distributed_files.Prelude.{
  ℕ, ◌<◌, ◌≡◌, refl, sym, ap, ◌∙◌, subst, true, false, List, [], ◌∷◌, ◌++◌, append_assoc,
  append-nil, map, some, arith, Bytes, ◌==◌, All, All-append,
}
use simple_distributed_files.Text.Decimal.{dec, is_digit, dec_head, dec_digits}
use simple_distributed_files.Text.Stream.{open_text, read_num, read_num-dec}
use simple_distributed_files.Yfs.Directory.{
  Dirent, inum_mod, n2i, c_str, create_buff_element, split, dirent_of, parse_dirent, parse_all,
  parsebuf, element, write_rest, write_dirent, append_element, elementseperator, inumseperator,
}
use simple_distributed_files.Yfs.Split.{Without, NonEmpty, IsItem, joined, split_end, split-joined}

-- An entry whose text keeps it apart from others: the number has 64 bits, and the name is not
-- empty and has no separator and no zero.
pub record IsEntry (e : Dirent) : Type 0 where
  pub small : e.inum < inum_mod
  pub named : NonEmpty e.name
  pub whole : Without elementseperator e.name
  pub plain : Without inumseperator e.name
  pub text : Without 0 e.name

c_str_whole : (s : Bytes) → Without 0 s → c_str s ≡ s
unfolding c_str
c_str_whole [] h = refl
c_str_whole (c ∷ s) h = rw (h.0, c_str) (ap (◌∷◌ c) (c_str_whole s h.1))

All-mono : (P Q : ℕ → Type 0) (xs : Bytes) → ((c : ℕ) → P c → Q c) → All P xs → All Q xs
All-mono P Q [] f h = tt
All-mono P Q (x ∷ xs) f h = (f x h.0, All-mono P Q xs f h.1)

digit_47 : (c : ℕ) → is_digit c ≡ true → (c == 47) ≡ false
unfolding is_digit
digit_47 c h = ground (arith, h)

digit_64 : (c : ℕ) → is_digit c ≡ true → (c == 64) ≡ false
unfolding is_digit
digit_64 c h = ground (arith, h)

n2i-dec : (garbage n : ℕ) → n < inum_mod → n2i garbage (dec n) ≡ n
unfolding n2i
n2i-dec garbage n h =
    ap (λ t. (read_num inum_mod garbage (open_text t)).0) (sym (append-nil (dec n)))
    ∙ ap (λ p. p.0) (read_num-dec inum_mod garbage n [] h tt)

digits_without :
    (delim n : ℕ) → ((c : ℕ) → is_digit c ≡ true → (c == delim) ≡ false) → IsItem delim (dec n)
digits_without delim n apart =
    let (c, cs, e, d) = dec_head n in
    (
      subst NonEmpty (sym e) tt,
      All-mono (λ c. is_digit c ≡ true) (λ c. (c == delim) ≡ false) (dec n) apart (dec_digits n),
    )

NonEmpty-append : (s t : Bytes) → NonEmpty s → NonEmpty (s ++ t)
NonEmpty-append [] t h = absurd h
NonEmpty-append (c ∷ s) t h = tt

whole_element : (e : Dirent) → IsEntry e → element e ≡ dec e.inum ++ (inumseperator ∷ e.name)
unfolding create_buff_element
whole_element e h = rw (c_str_whole e.name h.text)

element-IsItem : (e : Dirent) → IsEntry e → IsItem elementseperator (element e)
element-IsItem e h =
    let (n, w) = digits_without elementseperator e.inum digit_47 in
    subst (IsItem elementseperator) (sym (whole_element e h)) (
      NonEmpty-append (dec e.inum) (inumseperator ∷ e.name) n,
      All-append _ (dec e.inum) (inumseperator ∷ e.name) w (refl, h.whole),
    )

elements-IsItem :
    (es : List Dirent) → All IsEntry es → All (IsItem elementseperator) (map element es)
elements-IsItem [] h = tt
elements-IsItem (e ∷ es) h = (element-IsItem e h.0, elements-IsItem es h.1)

element-split :
    (e : Dirent) → IsEntry e → split (element e) inumseperator ≡ dec e.inum ∷ e.name ∷ []
unfolding joined
element-split e h =
    ap (λ t. split t inumseperator) (whole_element e h)
    ∙ split-joined inumseperator (dec e.inum) (e.name ∷ [])
        (digits_without inumseperator e.inum digit_64) ((h.named, h.plain), tt)

parse_dirent-element :
    (garbage : ℕ) (e : Dirent) → IsEntry e → parse_dirent garbage (element e) ≡ some e
unfolding parse_dirent dirent_of
parse_dirent-element garbage e h =
    ap (dirent_of garbage) (element-split e h)
    ∙ ap (λ (n : ℕ). some (record { name = e.name; inum = n })) (n2i-dec garbage e.inum h.small)

parse_all-elements :
    (garbage : ℕ) (es : List Dirent) → All IsEntry es → parse_all garbage (map element es) ≡ some es
unfolding parse_all
parse_all-elements garbage [] h = refl
parse_all-elements garbage (e ∷ es) h =
    rw (parse_dirent-element garbage e h.0, parse_all-elements garbage es h.1, parse_all)

write_joined :
    (e : Dirent) (es : List Dirent)
    → element e ++ write_rest es ≡ joined elementseperator (element e) (map element es)
unfolding write_rest joined
write_joined e [] = append-nil (element e)
write_joined e (x ∷ es) = ap (λ t. element e ++ (elementseperator ∷ t)) (write_joined x es)

no_items : (garbage : ℕ) → parsebuf garbage [] ≡ some []
unfolding parsebuf parse_all split
no_items garbage = ap (parse_all garbage) (split_end 1 elementseperator [])

-- A directory that is written is read back, entry by entry: numbers have 64 bits, and names are
-- not empty and have no separator and no zero.
pub parsebuf-write_dirent :
    (garbage : ℕ) (es : List Dirent) → All IsEntry es → parsebuf garbage (write_dirent es) ≡ some es
unfolding parsebuf write_dirent
parsebuf-write_dirent garbage [] h = no_items garbage
parsebuf-write_dirent garbage (e ∷ es) h =
    ap (λ t. parse_all garbage (split t elementseperator)) (write_joined e es)
    ∙ ap (parse_all garbage) (
        split-joined elementseperator (element e) (map element es) (element-IsItem e h.0)
          (elements-IsItem es h.1))
    ∙ parse_all-elements garbage (e ∷ es) h

write_rest-snoc :
    (es : List Dirent) (e : Dirent)
    → write_rest (es ++ e ∷ []) ≡ write_rest es ++ (elementseperator ∷ element e)
unfolding write_rest
write_rest-snoc [] e = ap (◌∷◌ elementseperator) (append-nil (element e))
write_rest-snoc (x ∷ es) e =
    ap (λ t. elementseperator ∷ (element x ++ t)) (write_rest-snoc es e)
    ∙ ap (◌∷◌ elementseperator)
        (sym (append_assoc (element x) (write_rest es) (elementseperator ∷ element e)))

append_more :
    (t buf : Bytes) (x : Dirent) (es : List Dirent) (inum : ℕ)
    → append_element t (x ∷ es) inum buf ≡ t ++ (elementseperator ∷ create_buff_element inum buf)
unfolding append_element
append_more t buf x es inum = ground arith

new_element : (e : Dirent) → IsEntry e → create_buff_element e.inum e.name ≡ element e
new_element e h = ap (create_buff_element e.inum) (sym (c_str_whole e.name h.text))

append_lem :
    (es : List Dirent) (e : Dirent)
    → IsEntry e
    → append_element (write_dirent es) es e.inum e.name ≡ write_dirent (es ++ e ∷ [])
unfolding append_element write_dirent write_rest
append_lem [] e h = new_element e h ∙ sym (append-nil (element e))
append_lem (x ∷ es) e h =
    append_more (element x ++ write_rest es) e.name x es e.inum
    ∙ ap (λ t. (element x ++ write_rest es) ++ (elementseperator ∷ t)) (new_element e h)
    ∙ append_assoc (element x) (write_rest es) (elementseperator ∷ element e)
    ∙ ap (λ t. element x ++ t) (sym (write_rest-snoc es e))

-- A new file or directory is the last entry of its parent, after the entries that it had, which
-- are as before; the entries' numbers have 64 bits, and names are not empty and have no separator
-- and no zero.
pub parsebuf-append_element :
    (garbage : ℕ) (es : List Dirent) (e : Dirent)
    → All IsEntry es
    → IsEntry e
    → parsebuf garbage (append_element (write_dirent es) es e.inum e.name) ≡ some (es ++ e ∷ [])
parsebuf-append_element garbage es e h k =
    ap (parsebuf garbage) (append_lem es e k)
    ∙ parsebuf-write_dirent garbage (es ++ e ∷ []) (All-append IsEntry es (e ∷ []) h (k, tt))
