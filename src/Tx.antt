-- ===== src/Tx.antt =====
-- The transaction layer, src/tx.
pub mod Types
pub mod Msg
pub mod Generator
pub mod Clock
pub mod Retrier
pub mod Discovery
pub mod Storage
pub mod Proxy
pub mod ServerTx
pub mod Server
pub mod Print
pub mod Client
pub mod Runtime
