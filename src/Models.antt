-- ===== src/Models.antt =====
-- The ModelStorage side of the operator: pkg/modelhub, and
-- internal/controller/modelstorage_controller.go.
pub mod Float
pub mod Hub
pub mod Storage
pub mod Sizes
