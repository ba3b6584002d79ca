-- ===== src/Rpc/Connection/Framing.antt =====
-- One direction of a connection of rpc/connection.cc: a writer, the bytes under way, and a reader,
-- with the PDUs that were given to `send` and those that the reader's manager took.
use simple_distributed_files.Prelude.{
  ℕ, zero, suc, ◌-◌, ◌≤◌, ◌<◌, ◌≡◌, Bool, List, [], ◌∷◌, ◌++◌, Option, none, some, Bytes, length,
}
use simple_distributed_files.Rpc.Connection.{
  Read, got, ended, failed, Write, wrote, refused, Charbuf, Connection, connection_new, stamp,
  started, send_look, send_end, write_cb, read_cb, closeconn, send_enter, returns_false, ntohl,
}

pub record Link : Type 0 where
  pub writer : Connection
  pub wire : Bytes
  pub reader : Connection
  pub sent : List Bytes
  pub delivered : List Bytes

abbrev pub link_new : ℕ × ℕ → ℕ × ℕ → Link
link_new t u = record {
  writer = connection_new t;
  wire = [];
  reader = connection_new u;
  sent = [];
  delivered = [];
}

-- What `write` of so many bytes can return.
abbrev pub Takes : ℕ → Write → Type 0
Takes asked (wrote n) = n ≤ asked
Takes asked (refused again) = Unit

-- What `read` of so many bytes can return where `before` is under way, and what then is.
abbrev pub Gives : ℕ → Bytes → Read → Bytes → Type 0
Gives asked before (got bs) after = (before ≡ bs ++ after) × (0 < length bs) × (length bs ≤ asked)
Gives asked before (ended again) after = before ≡ after
Gives asked before (failed again) after = before ≡ after

-- The first `read` of `readpdu`, when it is made.
abbrev pub GivesSize : Charbuf → Bytes → Read → Bytes → Type 0
GivesSize p before r after = elim p.sz [ zero ↦ Gives 4 before r after | suc k ↦ before ≡ after ]

-- How many bytes are left to read once the size is known.
abbrev pub size_left : Charbuf → ℕ
size_left p = elim p.solong [ none ↦ p.sz | some k ↦ p.sz - k ]

abbrev pub took : Option Bytes → List Bytes
took none = []
took (some b) = b ∷ []

-- A PDU with its size in its first four bytes.
abbrev pub frame : Bytes → Bytes
frame b = stamp (length b) b

-- A PDU as it travels: its first four bytes are its size.
pub record IsFrame (p : Bytes) : Type 0 where
  pub long : 4 < length p
  pub short : length p < 2147483648
  pub stamped : stamp (length p) p ≡ p

abbrev pub asked_of : Read → ℕ
asked_of (got bs) = ntohl bs - 4
asked_of _ = 0

-- How many bytes the second `read` of `readpdu` asks for.
abbrev pub rest_asked : Read → Charbuf → ℕ
rest_asked first p = elim p.sz [ zero ↦ asked_of first | suc k ↦ size_left p ]

-- The events of one direction: what the threads that send, the poll thread and the kernel do.
pub data Step : Link → Link → Type 0 where
  enters : (l : Link) → Step l (record l { writer = send_enter l.writer })
  starts :
      (l : Link) (b out : Bytes) (r : Write) (w : Connection)
      → 4 < length b
      → length b < 2147483648
      → Takes (length b) r
      → send_look b (length b) r l.writer ≡ some (started w out)
      → Step l (record l { writer = w; wire = l.wire ++ out; sent = l.sent ++ frame b ∷ [] })
  turned_away :
      (l : Link) (b : Bytes) (r : Write) (w : Connection)
      → 4 < length b
      → length b < 2147483648
      → Takes (length b) r
      → send_look b (length b) r l.writer ≡ some (returns_false w)
      → Step l (record l { writer = w })
  writes :
      (l : Link) (out : Bytes) (r : Write) (w : Connection)
      → Takes (size_left l.writer.wpdu) r
      → write_cb r l.writer ≡ some (w, out)
      → Step l (record l { writer = w; wire = l.wire ++ out })
  ends :
      (l : Link) (w : Connection) (ret : Bool)
      → send_end l.writer ≡ some (w, ret)
      → Step l (record l { writer = w })
  reads :
      (l : Link) (mid after : Bytes) (first second : Read) (taken : Bool) (c : Connection)
      (out : Option Bytes)
      → GivesSize l.reader.rpdu l.wire first mid
      → Gives (rest_asked first l.reader.rpdu) mid second after
      → read_cb first second taken l.reader ≡ some (c, out)
      → Step l (record l { reader = c; wire = after; delivered = l.delivered ++ took out })
  closes : (l : Link) → Step l (record l { writer = closeconn l.writer })
  reader_closes : (l : Link) → Step l (record l { reader = closeconn l.reader })

pub data Steps : Link → Link → Type 0 where
  done : (l : Link) → Steps l l
  next : (l m k : Link) → Step l m → Steps m k → Steps l k
