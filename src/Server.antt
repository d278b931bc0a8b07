-- ===== src/Server.antt =====
-- pkg/server: what the servers share.
pub mod Meta
pub mod Context
pub mod Metas
pub mod Kinds
pub mod ByKind
pub mod Separate
pub mod Fields
pub mod Shown
pub mod Holding
pub mod Handled
pub mod Decode
pub mod Refusals
mod Tests
