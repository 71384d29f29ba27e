-- ===== src/Tests.antt =====
-- Concrete parameters, and the theorems of the library at concrete inputs.
mod Execution
mod Serial
mod Encodings
mod Memory
mod Chunks
mod Outbox
mod Queue
mod Sender
mod Proxies
mod Server
mod Crypto
mod Relay
mod Tokens
mod Api
mod Sessions
