-- ===== src/Safety.antt =====
-- The safety package (control-plane/safety/src): the account state machine, the working schedule,
-- the gate's decision and its reaction to signals. The proofs are in the child modules.
pub mod StateMachine
pub mod Config
pub mod Schedule
pub mod Gate
pub mod Signals
