-- ===== src/Runner.antt =====
-- pkg/runner: hosts function instances, one process each, and queues the invocations of each.
pub mod MultiConsumer
pub mod Delivery
pub mod Instances
pub mod Worker
pub mod SingleWorker
pub mod Steps
pub mod Races
pub mod Runtime
pub mod Startup
pub mod SingleStart
pub mod Readiness
pub mod Prepare
pub mod Download
pub mod Atomic
pub mod Launch
pub mod SingleDownload
mod Tests
mod DownloadTests
