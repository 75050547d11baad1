-- ===== src/Raft.antt =====
-- The Raft consensus module, pkg/raft: raft.go, storage.go and node.go.
pub mod Log
pub mod Node
pub mod Election
pub mod Replication
pub mod Deliver
pub mod Commit
pub mod Follower
pub mod Run
mod Examples
