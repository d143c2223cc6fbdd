-- ===== src/Rpc.antt =====
-- The messages of src/rpc, their wire form, and its laws.
pub mod Types
pub mod Wire
pub mod Encode
pub mod Decode
