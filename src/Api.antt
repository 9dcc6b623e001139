-- ===== src/Api.antt =====
-- internal/api: the REST routes over the index.
pub mod Reply
pub mod Esplora
pub mod Server
pub mod Blocks
pub mod Transactions
pub mod Mempool
pub mod Address
pub mod Drivechain
pub mod Unavailable
pub mod Limits
