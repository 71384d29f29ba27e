-- ===== src/Poller.antt =====
-- internal/poller: the sender, which fetches requests, executes them and brings the results back.
pub mod Events
pub mod Incoming
pub mod Cycle
pub mod Frame
pub mod Delivery
pub mod Claims
pub mod Backoff
pub mod Session
