-- ===== src/ControlPlane.antt =====
-- controllers/controlplane: the controller of KinkControlPlane, and its certificates.
pub mod Scale
pub mod Status
pub mod Certs
pub mod Controller
pub mod Watch
