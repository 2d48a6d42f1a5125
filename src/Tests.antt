-- ===== src/Tests.antt =====
-- A server in memory, the libraries' constants and a small cluster, on which the theorems are
-- applied.
mod Memory
mod Objects
mod Pki
mod Machines
mod ControlPlanes
mod Certificates
mod System
mod DeepCopies
