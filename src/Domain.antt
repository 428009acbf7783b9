-- ===== src/Domain.antt =====
-- The shared vocabulary (shared/src/enums.ts, shared/src/types.ts).
mod Enums
mod Types
mod Rows
unfoldable pub use Enums.*
unfoldable pub use Rows.*
unfoldable pub use Types.*
