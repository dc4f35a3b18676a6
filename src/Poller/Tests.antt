-- ===== src/Poller/Tests.antt =====
-- The theorems on the poller, applied to small inputs.
pub mod Workers
pub mod Plugins
pub mod Records
pub mod Rounds
pub mod Metrics
