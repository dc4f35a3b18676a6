-- ===== src/Protocols.antt =====
-- internal/protocols: the protocols and their credentials.
pub mod Usable
pub mod Schemas
pub mod Registry
pub mod Decoded
pub mod Accepted
pub mod Refused
pub mod Tests
