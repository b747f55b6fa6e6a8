-- ===== src/Sync.antt =====
-- internal/synchronizer: the portal side of the program, which copies the portal's jobs into the
-- cluster and reports the cluster back.
pub mod Text
pub mod Portal
pub mod Buffer
pub mod Status
pub mod Jobs
pub mod Observer
pub mod Uploader
pub mod Manager
pub mod Converge
pub mod Provider
pub mod Reports
