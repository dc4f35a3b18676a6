-- ===== src/Discovery.antt =====
-- internal/discovery: what a target names, and how it is expanded.
pub mod Strings
pub mod World
pub mod Network
pub mod Addresses
pub mod Targets
pub mod Worker
pub mod Handshake
pub mod Provisioning
pub mod Tests
