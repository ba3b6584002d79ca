-- ===== src/Yfs/ReadBack.antt =====
-- What `readFile` of yfs_client.cc reads after a `writeFile`.
use simple_distributed_files.Prelude.{
  ℕ, zero, suc, ◌+◌, ◌^◌, ◌≤◌, ◌<◌, ◌≡◌, refl, ap, ◌∙◌, inl, inr, false, [], ◌∷◌, ◌++◌, some, arith,
  Bytes, ltb, length, take, drop, Option-cases, Dict, lookup, insert, lookup-insert, ==_iff,
}
use simple_distributed_files.Extent.Server
use simple_distributed_files.Extent.Client.{World, CachedExtent, written}
use simple_distributed_files.Extent.Client
use simple_distributed_files.Yfs.Client.{
  release, acquire, ec_put, State, Tick, ok, write_text, write_file, read_file,
}
use simple_distributed_files.Yfs.Writing.{
  write_text-grown, replace_fits, length-replaced, length-grown, grown,
}

take_prefix : (s r : Bytes) → take (length s) (s ++ r) ≡ s
take_prefix [] r = refl
take_prefix (c ∷ s) r = ap (◌∷◌ c) (take_prefix s r)

take-drop_middle :
    (off : ℕ) (buf s r : Bytes)
    → off ≤ length s
    → take (length buf) (drop off (take off s ++ (buf ++ r))) ≡ buf
take-drop_middle zero buf s r h = take_prefix buf r
take-drop_middle (suc off) buf [] r h = absurd (omega (arith, h))
take-drop_middle (suc off) buf (c ∷ s) r h = take-drop_middle off buf s r (omega (arith, h))

-- What is read after a write, in terms of the texts.
write_text_read :
    (max_size : ℕ) (buf : Bytes) (off : ℕ) (current : Bytes)
    → max_size < 2 ^ 64
    → off + length buf ≤ max_size
    → (t : Bytes) × (write_text max_size buf off current ≡ some t)
      × (off ≤ length t)
      × (take (length buf) (drop off t) ≡ buf)
write_text_read max_size buf off current top h =
    let s : Bytes = grown (off + length buf) current in
    let fits : off + length buf ≤ length s =
      ground (arith, length-grown (off + length buf) current) in
    (
      take off s ++ (buf ++ drop (off + length buf) s),
      write_text-grown max_size buf off current top h ∙ replace_fits off buf s fits,
      omega (arith, length-replaced off buf s fits, fits),
      take-drop_middle off buf s (drop (off + length buf) s) (omega arith),
    )

pub insert_hit : {V : Type 0} (id : ℕ) (v : V) (d : Dict V) → lookup id (insert id v d) ≡ some v
insert_hit id v d = rw ((==_iff id id).1 refl) at (lookup-insert id id v d)

put_cached :
    (inum : ℕ) (buf : Bytes) (k : Tick) (w : World)
    → (e : CachedExtent) × (lookup inum (Client.put inum buf k.server k.times w).0.extent_list
        ≡ some e)
      × (e.buf ≡ buf)
unfolding Client.put Client.fetch
put_cached inum buf k w = elim (Option-cases (lookup inum w.extent_list)) [
  | inl miss ↦
      let e : CachedExtent = written buf k.times (Client.fetch inum k.server w).2 in
      rw (miss, Client.put) (e, insert_hit inum e w.extent_list, refl)
  | inr (e, hit) ↦
      rw (hit, Client.put)
        (written buf k.times e, insert_hit inum (written buf k.times e) w.extent_list, refl)
]

get_hit :
    (inum : ℕ) (k : Tick) (w : World) (e : CachedExtent)
    → lookup inum w.extent_list ≡ some e
    → ((Client.get inum k.server k.client w).1 ≡ Server.ok)
      × ((Client.get inum k.server k.client w).2 ≡ e.buf)
unfolding Client.get
get_hit inum k w e h = rw (h, Client.get) (refl, refl)

-- A file that was written is in the cache, and is found there.
pub found_after_put :
    (inum : ℕ) (buf : Bytes) (k k' : Tick) (w : World)
    → let w' = (Client.put inum buf k.server k.times w).0 in
      ((Client.get inum k'.server k'.client w').1 ≡ Server.ok)
      × ((Client.get inum k'.server k'.client w').2 ≡ buf)
found_after_put inum buf k k' w =
    let (e, h, b) = put_cached inum buf k w in
    let (found, text) = get_hit inum k' (Client.put inum buf k.server k.times w).0 e h in
    (found, text ∙ b)

read_found :
    (inum size off : ℕ) (k : Tick) (s : State) (t : Bytes)
    → (Client.get inum k.server k.client s.ec).1 ≡ Server.ok
    → (Client.get inum k.server k.client s.ec).2 ≡ t
    → off ≤ length t
    → ((read_file inum size off k s).1 ≡ ok)
      × ((read_file inum size off k s).2 ≡ some (take size (drop off t)))
unfolding read_file
read_found inum size off k s t found text le =
    let long : ltb (length t) off ≡ false = ground (arith, le) in
    rw (found, text, long, read_file) (refl, refl)

-- A file that is there can be written wherever the write's end is no more than the size that a
-- string may have, which is below 2 ^ 64: `writeFile` answers OK, and `readFile` reads back what was
-- written, at the same place and of the same size.
pub write_file-read_file :
    (max_size inum : ℕ) (buf : Bytes) (off : ℕ) (k k1 k2 : Tick) (s : State)
    → max_size < 2 ^ 64
    → off + length buf ≤ max_size
    → (Client.get inum k.server k.client s.ec).1 ≡ Server.ok
    → (s' : State) × (write_file max_size inum buf off k k1 s ≡ some (s', ok))
      × ((read_file inum (length buf) off k2 s').1 ≡ ok)
      × ((read_file inum (length buf) off k2 s').2 ≡ some buf)
unfolding write_file
write_file-read_file max_size inum buf off k k1 k2 s top h there =
    let g = Client.get inum k.server k.client s.ec in
    let (t, we, le, rd) = write_text_read max_size buf off g.2 top h in
    let (found, text) = found_after_put inum t k1 k2 g.0 in
    let s' : State = release inum (ec_put inum t k1 (record (acquire inum s) { ec = g.0 })) in
    let (done, got) = read_found inum (length buf) off k2 s' t found text le in
    (s', rw (there, we, write_file) refl, done, got ∙ ap some rd)
