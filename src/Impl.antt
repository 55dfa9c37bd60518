-- ===== src/Impl.antt =====
-- internal/impl: the client's side of a call.
pub mod Responses
pub mod Terminals
pub mod Correctable
pub mod Call
pub mod Tests
