-- ===== src/Runtime.antt =====
-- src/runtime: the queues between the threads of a node.
pub mod MpscRing
pub mod SpscRing
pub mod WakeGate
