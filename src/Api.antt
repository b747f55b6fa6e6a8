-- ===== src/Api.antt =====
-- The API types of api/v1 and api/v1beta1, by the objects that they describe.
pub mod Job
pub mod Storage
pub mod Heap
pub mod Refs
pub mod Copies
