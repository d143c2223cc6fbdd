-- ===== src/Tests.antt =====
-- The theorems at concrete inputs, and runs of the code.
mod Fixtures
mod Core
mod Messages
mod Stores
mod Books
mod Files
mod Frames
mod Rings
mod Pairs
mod Gates
mod Clusters
mod Histories
mod Clients
