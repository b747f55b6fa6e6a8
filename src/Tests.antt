-- ===== src/Tests.antt =====
-- A cluster in memory, and the theorems at concrete inputs.
mod Memory
mod Status
mod Copies
mod Claims
mod Reconcile
mod Sync
mod Observer
mod Models
mod Runs
mod Queue
mod Converge
mod Provider
mod Reports
mod Manager
mod Process
