-- ===== src/Tests.antt =====
-- The theorems at concrete data.
pub mod Chain
pub mod Rows
pub mod Blocks
pub mod Passes
pub mod Fakes
pub mod Forms
pub mod Connections
pub mod Registry
pub mod Queries
pub mod Routes
