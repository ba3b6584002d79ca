-- ===== src/Extent/Sharing.antt =====
-- Several clients with a cache each before one extent server, under locks: a client uses a file
-- while it holds the file's lock, and flushes the file before the lock goes on, as `dorelease` of
-- yfs_client.cc does. The specification is one text for each file.
use simple_distributed_files.Prelude.{
  ℕ, ◌≡◌, refl, ◌∙◌, inl, inr, Bool, true, false, List, [], ◌∷◌, Option, none, some, Bytes, Dict,
  lookup, insert, lookup-insert, lookup-erase, ◌==◌, if◌then◌else◌, Option-cases,
}
use simple_distributed_files.Extent.Server.{Extents, Times, stored}
use simple_distributed_files.Extent.Server
use simple_distributed_files.Extent.Client.{World, CachedExtent, get, getattr, put, flush, fetch}
use simple_distributed_files.Extent.Cache.{or_empty, seen, IsCoherent, stored-get, stored-put}

-- `holder` is the lock service's view: which client has the lock of a file.
pub record Shared : Type 0 where
  pub caches : ℕ → Dict CachedExtent
  pub server : Extents
  pub holder : ℕ → Option ℕ

abbrev pub view : ℕ → Shared → World
view c s = record { extent_list = s.caches c; server = s.server }

abbrev pub put_back : ℕ → World → Shared → Shared
put_back c w s = record s {
  caches = λ d. if d == c then w.extent_list else s.caches d;
  server = w.server;
}

abbrev pub give : ℕ → ℕ → Shared → Shared
give id c s = record s { holder = λ j. if j == id then some c else s.holder j }

-- `hands` is a lock that goes from a client to another, `grants` one that nobody has.
pub data Step : Type 0 where
  gets : ℕ → ℕ → ℕ → ℕ → Step
  getattrs : ℕ → ℕ → ℕ → Step
  puts : ℕ → ℕ → Bytes → ℕ → Times → Step
  hands : ℕ → ℕ → Times → ℕ → Step
  grants : ℕ → ℕ → Step

abbrev pub is_some_of : ℕ → Option ℕ → Bool
is_some_of c none = false
is_some_of c (some d) = c == d

unfoldable pub holds : ℕ → ℕ → Shared → Bool
holds c id s = is_some_of c (s.holder id)

abbrev pub is_free : Option ℕ → Bool
is_free none = true
is_free (some d) = false

abbrev pub with_text : Bytes → Option (Shared × List Bytes) → Option (Shared × List Bytes)
with_text b none = none
with_text b (some (s, texts)) = some (s, b ∷ texts)

-- The replies of reads; `none` is a step that the locks do not allow.
unfoldable pub run_steps : List Step → Shared → Option (Shared × List Bytes)
run_steps [] s = some (s, [])
run_steps (gets c id now now' ∷ os) s = elim (holds c id s) [
  | false ↦ none
  | true ↦
      with_text (get id now now' (view c s)).2
        (run_steps os (put_back c (get id now now' (view c s)).0 s))
]
run_steps (getattrs c id now ∷ os) s = elim (holds c id s) [
  | false ↦ none
  | true ↦ run_steps os (put_back c (getattr id now (view c s)).0 s)
]
run_steps (puts c id buf now t ∷ os) s = elim (holds c id s) [
  | false ↦ none
  | true ↦ run_steps os (put_back c (put id buf now t (view c s)).0 s)
]
run_steps (hands c id t c' ∷ os) s = elim (holds c id s) [
  | false ↦ none
  | true ↦ run_steps os (give id c' (put_back c (flush id t (view c s)).0 s))
]
run_steps (grants c id ∷ os) s = elim (is_free (s.holder id)) [
  | false ↦ none
  | true ↦ run_steps os (give id c s)
]

abbrev pub Files : Type 0
Files = ℕ → Bytes

-- The specification: a read returns what was written last, whoever wrote it.
unfoldable pub last_written : List Step → Files → List Bytes
last_written [] f = []
last_written (gets c id now now' ∷ os) f = f id ∷ last_written os f
last_written (getattrs c id now ∷ os) f = last_written os f
last_written (puts c id buf now t ∷ os) f = last_written os (λ j. if j == id then buf else f j)
last_written (hands c id t c' ∷ os) f = last_written os f
last_written (grants c id ∷ os) f = last_written os f

-- Each cache is coherent, and a file is cached only where its lock is.
pub record IsShared (s : Shared) : Type 0 where
  pub coherent : (c : ℕ) → IsCoherent (view c s)
  pub owned : (c id : ℕ) (e : CachedExtent) → lookup id (s.caches c) ≡ some e → s.holder id ≡ some c

-- A file's text: what the holder sees, or what the server has.
abbrev pub text_of : ℕ → Shared → Option ℕ → Bytes
text_of id s none = or_empty (stored id s.server)
text_of id s (some c) = seen id (view c s)

unfoldable pub text : ℕ → Shared → Bytes
text id s = text_of id s (s.holder id)

-- An operation on a file touches nothing else.
pub record Touches (id : ℕ) (w w' : World) : Type 0 where
  pub entries : (j : ℕ) → (j == id) ≡ false → lookup j w'.extent_list ≡ lookup j w.extent_list
  pub texts : (j : ℕ) → (j == id) ≡ false → stored j w'.server ≡ stored j w.server

insert_other :
    (id j : ℕ) (e : CachedExtent) (d : Dict CachedExtent)
    → (j == id) ≡ false
    → lookup j (insert id e d) ≡ lookup j d
insert_other id j e d h = lookup-insert id j e d ∙ rw h

pub get-Touches : (id now now' : ℕ) (w : World) → Touches id w (get id now now' w).0
unfolding get
get-Touches id now now' w = elim (Option-cases (lookup id w.extent_list)) [
  | inl miss ↦
      rw (miss, get)
        (record {
          entries = λ j h. insert_other id j _ w.extent_list h;
          texts = λ j h. stored-get id [] now w.server j;
        })
  | inr (e, hit) ↦
      rw (hit, get)
        (record { entries = λ j h. insert_other id j _ w.extent_list h; texts = λ j h. refl })
]

pub getattr-Touches : (id now : ℕ) (w : World) → Touches id w (getattr id now w).0
unfolding getattr fetch
getattr-Touches id now w = elim (Option-cases (lookup id w.extent_list)) [
  | inl miss ↦
      rw (miss, getattr)
        (record {
          entries = λ j h. insert_other id j _ w.extent_list h;
          texts = λ j h. stored-get id [] now w.server j;
        })
  | inr (e, hit) ↦ rw (hit, getattr) (record { entries = λ j h. refl; texts = λ j h. refl })
]

pub put-Touches :
    (id : ℕ) (buf : Bytes) (now : ℕ) (t : Times) (w : World) → Touches id w (put id buf now t w).0
unfolding put fetch
put-Touches id buf now t w = elim (Option-cases (lookup id w.extent_list)) [
  | inl miss ↦
      rw (miss, put)
        (record {
          entries = λ j h. insert_other id j _ w.extent_list h;
          texts = λ j h. stored-get id [] now w.server j;
        })
  | inr (e, hit) ↦
      rw (hit, put)
        (record { entries = λ j h. insert_other id j _ w.extent_list h; texts = λ j h. refl })
]

flush_texts :
    (id j : ℕ) (t : Times) (b : Bytes) (dirty : Bool) (s : Extents)
    → (j == id) ≡ false
    → stored j (if dirty then (Server.put id b t s).0 else s) ≡ stored j s
flush_texts id j t b true s h = stored-put id b t s j ∙ rw h
flush_texts id j t b false s h = refl

pub flush-Touches : (id : ℕ) (t : Times) (w : World) → Touches id w (flush id t w).0
unfolding flush
flush-Touches id t w = elim (Option-cases (lookup id w.extent_list)) [
  | inl miss ↦ rw (miss, flush) (record { entries = λ j h. refl; texts = λ j h. refl })
  | inr (e, hit) ↦
      rw (hit, flush)
        (record {
          entries = λ j h. lookup-erase id j w.extent_list ∙ rw h;
          texts = λ j h. flush_texts id j t e.buf e.is_dirty w.server h;
        })
]
