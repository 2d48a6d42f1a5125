-- ===== src/ControlPlane/Certs.antt =====
-- controllers/controlplane/secrets: the certificates of a cluster, and the secrets that hold them.
pub mod Pki
pub mod AltNames
pub mod Catalogue
pub mod Tree
pub mod Secrets
pub mod Manager
