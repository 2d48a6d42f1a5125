-- ===== src/Infrastructure/Machine.antt =====
-- controllers/infrastructure/kinkmachine_controller.go
pub mod Scan
pub mod Setup
pub mod Status
pub mod Frame
pub mod Controller
