-- ===== src/Chain.antt =====
-- internal/chain: the node's data, its byte and text forms, the registry and the output decoders.
pub mod Text
pub mod Hash
pub mod OutPoint
pub mod ByteText
pub mod Block
pub mod Content
pub mod Registry
pub mod Node
