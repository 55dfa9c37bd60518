-- ===== src/Stream.antt =====
-- internal/stream: channels, sessions and what they are made of.
pub mod Request
pub mod Pending
pub mod SendQueue
pub mod Dispatch
pub mod Backoff
pub mod Session
pub mod Outbound
pub mod Transport
pub mod Local
mod Tests
