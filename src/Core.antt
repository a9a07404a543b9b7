-- ===== src/Core.antt =====
-- core/: the types that the components share, the message queue and the allocation of session ids.
pub mod Protocol
pub mod GlobalMq
pub mod Guid
