-- ===== src/Extent/Client.antt =====
-- `extent_client` of extent_client.h and extent_client.cc: a write-back cache before the server.
-- The RPCs arrive and are answered; a result that the server leaves alone comes back as the
-- server's fresh default, since the reply is read whatever the status is.
use simple_distributed_files.Prelude.{
  ℕ, ◌%◌, ◌^◌, Bool, true, false, [], none, some, Bytes, Dict, lookup, insert, erase, if◌then◌else◌,
}
use simple_distributed_files.Extent.Server.{
  Attr, Status, ok, ioerr, Extents, Times, attr_of, no_attr,
}
use simple_distributed_files.Extent.Server

-- `cached_extent_info`
pub record CachedExtent : Type 0 where
  pub is_dirty : Bool
  pub attr : Attr
  pub eid : ℕ
  pub buf : Bytes

-- The client's cache and the server behind it.
pub record World : Type 0 where
  pub extent_list : Dict CachedExtent
  pub server : Extents

-- `now` is the clock at the server and `now'` at the client.
unfoldable pub get : ℕ → ℕ → ℕ → World → World × Status × Bytes
get eid now now' w = elim (lookup eid w.extent_list) [
  | none ↦
      let (server, ret, buf) = Server.get eid [] now w.server in
      let (ret', attr) = Server.getattr eid server in
      (
        record w {
          extent_list =
              insert eid
                (record {
                  is_dirty = false;
                  attr = record attr { atime = now' % 2 ^ 32 };
                  eid = eid;
                  buf = buf;
                })
                w.extent_list;
          server = server;
        },
        ret,
        buf,
      )
  | some e ↦ (
    record w {
      extent_list =
          insert eid (record e { attr = record e.attr { atime = now' % 2 ^ 32 } }) w.extent_list;
    },
    ok,
    e.buf,
  )
]

-- What `getattr` and `put` do at a miss: the extent and its attributes are fetched.
unfoldable pub fetch : ℕ → ℕ → World → World × Status × CachedExtent
fetch eid now w =
    let (server, ret, buf) = Server.get eid [] now w.server in
    let (ret', attr) = Server.getattr eid server in
    (
      record w { server = server },
      ret',
      record { is_dirty = false; attr = attr; eid = eid; buf = buf },
    )

unfoldable pub getattr : ℕ → ℕ → World → World × Status × Attr
getattr eid now w = elim (lookup eid w.extent_list) [
  | none ↦
      let (w', ret, e) = fetch eid now w in
      (record w' { extent_list = insert eid e w'.extent_list }, ret, e.attr)
  | some e ↦ (w, ok, e.attr)
]

abbrev pub written : Bytes → Times → CachedExtent → CachedExtent
written buf t e = record e { is_dirty = true; buf = buf; attr = attr_of t buf }

unfoldable pub put : ℕ → Bytes → ℕ → Times → World → World × Status
put eid buf now t w = elim (lookup eid w.extent_list) [
  | none ↦
      let (w', ret, e) = fetch eid now w in
      (record w' { extent_list = insert eid (written buf t e) w'.extent_list }, ret)
  | some e ↦ (record w { extent_list = insert eid (written buf t e) w.extent_list }, ok)
]

unfoldable pub remove : ℕ → World → World × Status
remove eid w = elim (lookup eid w.extent_list) [
  | none ↦ (w, ok)
  | some e ↦
      let (server, ret) = Server.remove eid w.server in
      (record w { extent_list = erase eid w.extent_list; server = server }, ret)
]

unfoldable pub flush : ℕ → Times → World → World × Status
flush eid t w = elim (lookup eid w.extent_list) [
  | none ↦ (w, ok)
  | some e ↦ (
    record w {
      extent_list = erase eid w.extent_list;
      server = if e.is_dirty then (Server.put eid e.buf t w.server).0 else w.server;
    },
    ok,
  )
]
