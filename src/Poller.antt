-- ===== src/Poller.antt =====
-- internal/poller: the scheduler, its priority queue, the plugin manager and the metric writer.
pub mod BatchWriter
pub mod Queue
pub mod Events
pub mod Scheduler
pub mod Workers
pub mod Plugins
pub mod Results
pub mod Tests
