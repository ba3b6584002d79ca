-- ===== src/Paxos/Messages.antt =====
-- The wire form of the Paxos messages: the operators of paxos_protocol.h.
use simple_distributed_files.Prelude.{◌<◌, ◌≡◌, refl, true, [], ◌++◌, Bytes, some, length, ◌+◌}
use simple_distributed_files.Rpc.Marshall.{
  Marshall, put_bool, put_uint, put_string, marshall_new, rpc_header_sz,
}
use simple_distributed_files.Rpc.Unmarshall.{
  Unmarshall, Reader, ◌>>=◌, pure, u32, take_content, okdone, get_bool, get_uint, get_string,
}
use simple_distributed_files.Rpc.RoundTrip.{
  Reads, Writes, Reads-bind, Reads-last, Writes-then, uint_bytes, bool_bytes, string_bytes,
  put_uint-Writes, put_bool-Writes, put_string-Writes, get_uint-Reads, get_bool-Reads,
  get_string-Reads, message_round_trip,
}
use simple_distributed_files.Paxos.Proposal.{PropT}
use simple_distributed_files.Paxos.Acceptor.{Preparearg, Prepareres, Acceptarg, Decidearg}

unfoldable pub put_prop_t : PropT → Marshall → Marshall
put_prop_t a m = put_string a.m (put_uint a.n m)

unfoldable pub get_prop_t : Reader PropT
get_prop_t = do n ← get_uint; m ← get_string []; pure (record { n = n; m = m })

unfoldable pub put_preparearg : Preparearg → Marshall → Marshall
put_preparearg a m = put_prop_t a.n (put_uint a.instance_no m)

unfoldable pub get_preparearg : Reader Preparearg
get_preparearg = do i ← get_uint; n ← get_prop_t; pure (record { instance_no = i; n = n })

unfoldable pub put_prepareres : Prepareres → Marshall → Marshall
put_prepareres r m =
    put_string r.v_a (put_prop_t r.n_a (put_bool r.accept (put_bool r.oldinstance m)))

-- The string that a read leaves alone is empty in a fresh result.
unfoldable pub get_prepareres : Reader Prepareres
get_prepareres = do
  o ← get_bool
  a ← get_bool
  n ← get_prop_t
  v ← get_string []
  pure (record { oldinstance = o; accept = a; n_a = n; v_a = v })

unfoldable pub put_acceptarg : Acceptarg → Marshall → Marshall
put_acceptarg a m = put_string a.v (put_prop_t a.n (put_uint a.instance_no m))

unfoldable pub get_acceptarg : Reader Acceptarg
get_acceptarg = do
  i ← get_uint
  n ← get_prop_t
  v ← get_string []
  pure (record { instance_no = i; n = n; v = v })

unfoldable pub put_decidearg : Decidearg → Marshall → Marshall
put_decidearg a m = put_string a.v (put_uint a.instance_no m)

unfoldable pub get_decidearg : Reader Decidearg
get_decidearg = do i ← get_uint; v ← get_string []; pure (record { instance_no = i; v = v })

unfoldable pub prop_bytes : PropT → Bytes
prop_bytes a = uint_bytes a.n ++ string_bytes a.m

put_prop_t-Writes : (a : PropT) → Writes (put_prop_t a) (prop_bytes a)
unfolding put_prop_t prop_bytes
put_prop_t-Writes a =
    Writes-then (put_uint a.n) (put_string a.m) _ _ (put_uint-Writes a.n) (put_string-Writes a.m)

get_prop_t-Reads : (a : PropT) → a.n < u32 → Reads get_prop_t (prop_bytes a) a
unfolding get_prop_t prop_bytes
get_prop_t-Reads a h =
    Reads-bind get_uint _ (uint_bytes a.n) (string_bytes a.m) a.n a (get_uint-Reads a.n h)
      (Reads-last (get_string []) _ (string_bytes a.m) a.m a refl (get_string-Reads [] a.m))

unfoldable pub preparearg_bytes : Preparearg → Bytes
preparearg_bytes a = uint_bytes a.instance_no ++ prop_bytes a.n

unfoldable pub prepareres_bytes : Prepareres → Bytes
prepareres_bytes r =
    bool_bytes r.oldinstance ++ (bool_bytes r.accept ++ (prop_bytes r.n_a ++ string_bytes r.v_a))

unfoldable pub acceptarg_bytes : Acceptarg → Bytes
acceptarg_bytes a = uint_bytes a.instance_no ++ (prop_bytes a.n ++ string_bytes a.v)

unfoldable pub decidearg_bytes : Decidearg → Bytes
decidearg_bytes a = uint_bytes a.instance_no ++ string_bytes a.v

-- What a server unmarshals of a message written alone, with nothing left over.
abbrev pub IsReadBack : {A : Type 0} → (A → Marshall → Marshall) → Reader A → A → Type 0
IsReadBack put get a =
    (u : Unmarshall) × (get (take_content (put a marshall_new).content) ≡ some (a, u))
    × (okdone u ≡ true)

-- A prepare request with 32-bit numbers, shorter than 2 ^ 32 bytes with its header, is read back
-- as it was written, and nothing is left.
pub preparearg_round_trip :
    (a : Preparearg)
    → a.instance_no < u32
    → a.n.n < u32
    → rpc_header_sz + length (preparearg_bytes a) < u32
    → IsReadBack put_preparearg get_preparearg a
unfolding put_preparearg get_preparearg preparearg_bytes
preparearg_round_trip a hi hn fits =
    message_round_trip (put_preparearg a) get_preparearg (preparearg_bytes a) a
      (Writes-then (put_uint a.instance_no) (put_prop_t a.n) _ _ (put_uint-Writes a.instance_no)
        (put_prop_t-Writes a.n))
      (Reads-bind get_uint _ (uint_bytes a.instance_no) (prop_bytes a.n) a.instance_no a
        (get_uint-Reads a.instance_no hi)
        (Reads-last get_prop_t _ (prop_bytes a.n) a.n a refl (get_prop_t-Reads a.n hn)))
      fits

-- An answer to a prepare with a 32-bit number, shorter than 2 ^ 32 bytes with its header, is
-- read back as it was written, and nothing is left.
prepareres_round_trip :
    (r : Prepareres)
    → r.n_a.n < u32
    → rpc_header_sz + length (prepareres_bytes r) < u32
    → IsReadBack put_prepareres get_prepareres r
unfolding put_prepareres get_prepareres prepareres_bytes
prepareres_round_trip r hn fits =
    message_round_trip (put_prepareres r) get_prepareres (prepareres_bytes r) r
      (Writes-then (put_bool r.oldinstance)
        (λ m. put_string r.v_a (put_prop_t r.n_a (put_bool r.accept m))) _ _
        (put_bool-Writes r.oldinstance)
        (Writes-then (put_bool r.accept) (λ m. put_string r.v_a (put_prop_t r.n_a m)) _ _
          (put_bool-Writes r.accept)
          (Writes-then (put_prop_t r.n_a) (put_string r.v_a) _ _ (put_prop_t-Writes r.n_a)
            (put_string-Writes r.v_a))))
      (Reads-bind get_bool _ (bool_bytes r.oldinstance) _ r.oldinstance r
        (get_bool-Reads r.oldinstance)
        (Reads-bind get_bool _ (bool_bytes r.accept) _ r.accept r (get_bool-Reads r.accept) (
          Reads-bind get_prop_t _ (prop_bytes r.n_a) _ r.n_a r (get_prop_t-Reads r.n_a hn) (
            Reads-last (get_string []) _ (string_bytes r.v_a) r.v_a r refl
              (get_string-Reads [] r.v_a)))))
      fits

-- An accept request with 32-bit numbers, shorter than 2 ^ 32 bytes with its header, is read back
-- as it was written, and nothing is left.
pub acceptarg_round_trip :
    (a : Acceptarg)
    → a.instance_no < u32
    → a.n.n < u32
    → rpc_header_sz + length (acceptarg_bytes a) < u32
    → IsReadBack put_acceptarg get_acceptarg a
unfolding put_acceptarg get_acceptarg acceptarg_bytes
acceptarg_round_trip a hi hn fits =
    message_round_trip (put_acceptarg a) get_acceptarg (acceptarg_bytes a) a
      (Writes-then (put_uint a.instance_no) (λ m. put_string a.v (put_prop_t a.n m)) _ _
        (put_uint-Writes a.instance_no)
        (Writes-then (put_prop_t a.n) (put_string a.v) _ _ (put_prop_t-Writes a.n)
          (put_string-Writes a.v)))
      (Reads-bind get_uint _ (uint_bytes a.instance_no) _ a.instance_no a
        (get_uint-Reads a.instance_no hi)
        (Reads-bind get_prop_t _ (prop_bytes a.n) _ a.n a (get_prop_t-Reads a.n hn)
          (Reads-last (get_string []) _ (string_bytes a.v) a.v a refl (get_string-Reads [] a.v))))
      fits

-- A decide request with a 32-bit number, shorter than 2 ^ 32 bytes with its header, is read back
-- as it was written, and nothing is left.
pub decidearg_round_trip :
    (a : Decidearg)
    → a.instance_no < u32
    → rpc_header_sz + length (decidearg_bytes a) < u32
    → IsReadBack put_decidearg get_decidearg a
unfolding put_decidearg get_decidearg decidearg_bytes
decidearg_round_trip a hi fits =
    message_round_trip (put_decidearg a) get_decidearg (decidearg_bytes a) a
      (Writes-then (put_uint a.instance_no) (put_string a.v) _ _ (put_uint-Writes a.instance_no)
        (put_string-Writes a.v))
      (Reads-bind get_uint _ (uint_bytes a.instance_no) (string_bytes a.v) a.instance_no a
        (get_uint-Reads a.instance_no hi)
        (Reads-last (get_string []) _ (string_bytes a.v) a.v a refl (get_string-Reads [] a.v)))
      fits
