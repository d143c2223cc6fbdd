-- ===== src/Transport.antt =====
-- src/transport: the frames of a connection's byte stream.
pub mod Frame
