-- ===== src/Controller.antt =====
-- internal/controller/cpodjob_controller.go: the controller of CPodJobs.
pub mod Program
pub mod Claims
pub mod Report
pub mod Mounts
pub mod Build
pub mod Create
pub mod Upload
pub mod Reconcile
pub mod Advance
pub mod Effects
pub mod Runs
pub mod Queue
pub mod Metrics
