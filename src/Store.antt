-- ===== src/Store.antt =====
-- internal/store.
pub mod Tables
pub mod Write
pub mod State
pub mod Mempool
pub mod Read
pub mod Query
pub mod Tx
pub mod Activity
pub mod Migrate
pub mod Open
pub mod Concurrent
