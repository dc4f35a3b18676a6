-- ===== src/Api.antt =====
-- internal/api: the handlers behind the router.
pub mod Requests
pub mod Monitors
pub mod Metrics
pub mod Profiles
pub mod Discoveries
pub mod Targets
pub mod Triggered
pub mod Router
pub mod Devices
pub mod Lists
pub mod System
pub mod Coherence
pub mod Secrets
pub mod Tests
