-- ===== src/DeepCopy.antt =====
-- The generated functions `DeepCopyInto`, `DeepCopy` and `DeepCopyObject` of apis.
pub mod Structs
pub mod Memory
pub mod Shapes
pub mod Copies
pub mod Parts
pub mod Separate
pub mod Codecs
pub mod Foreign
pub mod Infrastructure
pub mod ControlPlane
pub mod AlphaControlPlane
pub mod AlphaInfrastructure
