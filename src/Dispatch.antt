-- ===== src/Dispatch.antt =====
-- The dispatch tick of runtime/src/dispatch: the cursor rule, the state and the ports of a tick,
-- the sending of approved messages, the steps of due cursors, and the pass over all of them.
pub mod Advance
pub mod World
pub mod Outcome
pub mod Send
pub mod Act
pub mod Steps
pub mod Pass
pub mod AdvanceLaws
pub mod SendLaws
pub mod OutcomeLaws
pub mod Unheld
pub mod StepLaws
pub mod Stagger
