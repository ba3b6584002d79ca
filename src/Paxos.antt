-- ===== src/Paxos.antt =====
-- paxos.h, paxos_protocol.h, paxos.cc, log.h and log.cc: the acceptor with its durable log, and
-- the proposer. A handler runs under the acceptor's mutex, so each is one step.
pub mod Proposal
pub mod Acceptor
pub mod Log
pub mod Recovery
pub mod Calls
pub mod Promise
pub mod Proposer
pub mod Quorum
pub mod Rounds
pub mod Run
pub mod Messages
pub mod Logged
pub mod Restart
mod Tests
