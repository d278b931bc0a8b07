-- ===== src/Commander.antt =====
-- pkg/commander: the control plane.
pub mod Db
pub mod Service
pub mod Uploads
pub mod Routes
pub mod Polling
pub mod Registry
pub mod Handlers
pub mod Statuses
mod HandlerTests
pub mod RouteTests
pub mod Tests
mod UploadTests
