-- ===== src/Examples.antt =====
-- The theorems at concrete inputs: an account on a Monday at noon, a small store, and ports that
-- answer at once.
pub mod Safety
pub mod Stores
pub mod Gates
pub mod Acceptances
pub mod Audience
pub mod Counts
pub mod Dispatches
pub mod Inboxes
pub mod Pacing
pub mod Removals
pub mod Replies
pub mod Templates
pub mod Tokens
