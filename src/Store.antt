-- ===== src/Store.antt =====
-- The in-memory store (runtime/src/store/in-memory-store.ts): its tables. The operations on each
-- are in the child modules. A `Map` keyed by id is a table in insertion order; the ids of new rows
-- come from one counter, whose prefix by kind of row is left out.
mod Defs
pub mod Tables
pub mod Sequence
pub mod Funnel
pub mod FunnelLaws
pub mod Order
pub mod Lookups
pub use Defs.*
