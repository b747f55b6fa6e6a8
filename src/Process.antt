-- ===== src/Process.antt =====
-- cmd: the two programs, which set up the controllers and the synchronizer.
pub mod Config
pub mod Operator
pub mod Synchronizer
