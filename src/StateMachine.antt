-- ===== src/StateMachine.antt =====
-- The replicated state machines of src/statemachine.
pub mod Map
pub mod Kv
pub mod OrderBook
