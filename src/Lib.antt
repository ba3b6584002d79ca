-- ===== src/Lib.antt =====
-- A distributed file system: file servers (yfs) that keep files on an extent server, under locks
-- of a lock server, over an RPC library of its own; Paxos agrees on the view of a replicated
-- service. This library models the parts that carry its correctness. All paths are from the
-- repository's root.
--
-- Parts, and where they are modelled:
--   Paxos: the acceptor (`acceptor` of paxos.h, paxos.cc) is Paxos/Acceptor, its handlers
--     `preparereq`, `acceptreq`, `decidereq` and `commit` by the same names. Its log file (log.cc)
--     is a byte string in the state: Paxos/Acceptor writes it, Paxos/Log reads it back, and
--     restarts the acceptor (`acceptor_new`). Paxos/Calls are histories of calls. The proposer is
--     Paxos/Proposer: `run` with `prepare` and `accept` over the replies that the RPCs bring, with
--     the rounds of requests as its result. Paxos/Messages is the wire form (paxos_protocol.h).
--   RPC (rpc/marshall.h, rpc/rpc.h, rpc/rpc.cc): Rpc/Marshall and Rpc/Unmarshall are the operators
--     `<<` and `>>`, as functions `put_` and `get_`; reads are a monad over the rest of the
--     buffer. Rpc/Window is the reply window of the server and `dispatch`. Rpc/Client is `rpcc`:
--     `call1` in its two halves, `got_pdu`, `bind`, `cancel` and `update_xid_rep`; Rpc/Timeouts
--     is the loop of `call1` between them, over the rounds that happen. Rpc/Link joins a client
--     and a server by a network. Rpc/Typed are the typed calls of rpc.h, `call` and `call_m`, and the
--     wrapper that `reg` makes around a method. Rpc/Fifo is the bounded queue of rpc/fifo.h, and
--     Rpc/ThrPool the pool of threads over it (rpc/thr_pool.cc). Rpc/Connection is `connection` of
--     rpc/connection.cc, a PDU over a stream of bytes, with its callbacks; one direction of it is a
--     step relation (Rpc/Connection/Framing). Rpc/Poll is `PollMgr` over `SelectAIO` of
--     rpc/pollmgr.cc, and Rpc/Poll/Turns the poll thread among the other threads.
--   Handles: Handle is the cache of RPC clients by address of handle.h and handle.cc, over a store
--     in which records are made and deleted.
--   Locks: Lock/ServerCache is `lock_server_cache` with its two threads, a pass of each as a step.
--     Lock/ClientCache is `lock_client_cache`, each stretch of code under its mutex a function, and
--     Lock/ClientCache/Threads the threads of one client around one lock, whose record an acquire or
--     a revocation made. Lock/Plain is
--     `lock_server`, the server without caches.
--   Extents: Extent/Server is `extent_server`, Extent/Client the write-back cache `extent_client`
--     in front of it, and Extent/Messages the wire form of attributes (extent_protocol.h).
--     Extent/Sharing puts many clients before one server, under locks that are flushed before they
--     go on (`dorelease` of yfs_client.cc).
--   Configuration: Config is `config` of config.h and config.cc, the view on which Paxos agrees.
--   Replication: Rsm is `rsm` of rsm.h and rsm.cc, the layer that follows those views, with its
--     handlers by their names. Rsm/Messages is the wire form (rsm_protocol.h).
--   Files: Yfs/Directory is the text of directories and the loops over their entries, from
--     yfs_client.cc, and Yfs/Client the operations `createFile` to `readFile` by their names, over
--     Extent/Client, with the locks that they ask for recorded. Fuse has the handlers of fuse.cc
--     over those, by their names, with the replies that each makes.
-- Prelude holds shared helpers, and Text the parts of iostream and string that the code uses:
-- decimal numbers, `>>`, `get` and `getline` on a text.
--
-- State is passed explicitly. A handler that runs under its mutex is one step, so interleavings
-- are sequences of steps. A failed VERIFY, an exception, a null pointer followed and a read beyond
-- a buffer are `none`. Machine integers keep their wrap-around (`% 2 ^ 32`). A `std::map` is an
-- association list, or a function where it is only indexed.
--
-- Fuel: `logread` and `dump` loop over a file, `members` and `split` over a string; each round
-- takes at least one character, so the text's length and one more is given, and is shown to be
-- enough for what the log, `value` and `writeDirent` write. The loop of
-- `add_timespec` has as many rounds as there are whole billions, which are shown to be enough. All
-- else is by recursion on the data.
--
-- Parameters: what an RPC brings back (`Reply`, by node), the clock at each `time(NULL)`, the
-- contents of uninitialised variables, what `random` returns, and the procedures that a server has
-- registered; what the kernel answers to `read`, `write` and `select`; whether `bind` of a handle
-- succeeds; how the FUSE library lays out a directory entry; `max_size()` of `std::string`, beyond
-- which `resize` throws. Memory does not run out.
--
-- Not modelled: how connections are accepted, made and counted (rpc/connection.cc), EPollAIO, which
-- nothing makes, the wrappers of pthreads, the lossy test mode of the RPC library, condition
-- variables (a thread that waits may look again at any time; in Rpc/Poll/Turns it goes on with the
-- broadcast), the stubs of lock_client.cc, the threads of config.cc and rsm.cc, the stubs that
-- rsm.cc and its glue leave to be filled in, the start of the programs, and the testers;
-- StringTokenizer.cc is another project's.
pub mod Prelude
pub mod Text
pub mod Rpc
pub mod Extent
pub mod Handle
pub mod Fuse
pub mod Lock
pub mod Paxos
pub mod Config
pub mod Rsm
pub mod Yfs
