-- ===== src/Extent/Messages.antt =====
-- The attributes of a file as a message, of extent_protocol.h.
use simple_distributed_files.Prelude.{ℕ, ◌<◌, refl, ◌++◌, Bytes}
use simple_distributed_files.Rpc.Marshall.{Marshall, put_uint}
use simple_distributed_files.Rpc.Unmarshall.{Reader, ◌>>=◌, pure, u32, get_uint}
use simple_distributed_files.Rpc.RoundTrip.{
  Reads-bind, Reads-last, Writes-then, uint_bytes, put_uint-Writes, get_uint-Reads,
}
use simple_distributed_files.Rpc.Typed.{Wire, IsFaithful}
use simple_distributed_files.Extent.Server.{Attr}

unfoldable pub put_attr : Attr → Marshall → Marshall
put_attr a m = put_uint a.size (put_uint a.ctime (put_uint a.mtime (put_uint a.atime m)))

unfoldable pub get_attr : Reader Attr
get_attr = do
  atime ← get_uint
  mtime ← get_uint
  ctime ← get_uint
  size ← get_uint
  pure (record { atime = atime; mtime = mtime; ctime = ctime; size = size })

unfoldable pub attr_bytes : Attr → Bytes
attr_bytes a =
    uint_bytes a.atime ++ (uint_bytes a.mtime ++ (uint_bytes a.ctime ++ uint_bytes a.size))

abbrev pub attr_wire : Wire Attr
attr_wire = record { put = put_attr; get = get_attr; bytes = attr_bytes }

-- `get_attr` after its first fields.
abbrev last_field : ℕ → ℕ → ℕ → Reader Attr
last_field a m c = do s ← get_uint; pure (record { atime = a; mtime = m; ctime = c; size = s })

abbrev two_fields : ℕ → ℕ → Reader Attr
two_fields a m = do c ← get_uint; last_field a m c

abbrev three_fields : ℕ → Reader Attr
three_fields a = do m ← get_uint; two_fields a m

-- Attributes of 32 bits are read back as they were written.
pub attr-IsFaithful :
    (a : Attr)
    → a.atime < u32
    → a.mtime < u32
    → a.ctime < u32
    → a.size < u32
    → IsFaithful attr_wire a
unfolding put_attr get_attr attr_bytes
attr-IsFaithful x ha hm hc hs =
    let a = x.atime in
    let m = x.mtime in
    let c = x.ctime in
    let s = x.size in
    record {
      writes =
          Writes-then (put_uint a) (λ w. put_uint s (put_uint c (put_uint m w))) (uint_bytes a)
            (uint_bytes m ++ (uint_bytes c ++ uint_bytes s)) (put_uint-Writes a)
            (Writes-then (put_uint m) (λ w. put_uint s (put_uint c w)) (uint_bytes m)
              (uint_bytes c ++ uint_bytes s) (put_uint-Writes m)
              (Writes-then (put_uint c) (put_uint s) (uint_bytes c) (uint_bytes s)
                (put_uint-Writes c) (put_uint-Writes s)));
      reads =
          Reads-bind get_uint three_fields (uint_bytes a)
            (uint_bytes m ++ (uint_bytes c ++ uint_bytes s)) a x (get_uint-Reads a ha)
            (Reads-bind get_uint (two_fields a) (uint_bytes m) (uint_bytes c ++ uint_bytes s) m x
              (get_uint-Reads m hm)
              (Reads-bind get_uint (last_field a m) (uint_bytes c) (uint_bytes s) c x
                (get_uint-Reads c hc)
                (Reads-last get_uint (λ y. record { atime = a; mtime = m; ctime = c; size = y })
                  (uint_bytes s) s x refl (get_uint-Reads s hs))));
    }
