-- ===== src/Store.antt =====
-- internal/store, its Redis backend: the durable state of a node.
pub mod Reads
pub mod Chunks
pub mod Outbox
pub mod Queue
pub mod Results
pub mod Sender
pub mod Proxies
pub mod Tokens
pub mod Peers
