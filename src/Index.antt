-- ===== src/Index.antt =====
-- internal/index: blocks turned into rows, and the passes that keep the index level with the node.
pub mod Prepare
pub mod World
pub mod Relay
pub mod Sync
pub mod MempoolSync
pub mod Run
