-- ===== src/Client.antt =====
-- src/client: the leader's side of client requests.
pub mod Pending
pub mod Service
