-- ===== src/Raft.antt =====
-- The consensus core of src/raft: its state, its handlers, and proofs about them.
pub mod State
pub mod Apply
pub mod Roles
pub mod Leader
pub mod Election
pub mod Follower
pub mod Handle
pub mod Rules
pub mod Frame
pub mod Ballot
pub mod Applied
pub mod Merge
pub mod Disk
pub mod Commit
pub mod Hints
pub mod Elections
pub mod Cluster
