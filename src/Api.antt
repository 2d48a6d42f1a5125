-- ===== src/Api.antt =====
-- The objects that the controllers read and write: the types of apis/, and the fields that the code
-- uses of the Kubernetes and Cluster API types.
mod Meta
mod Core
mod Clusters
mod ControlPlanes
mod Machines
pub use Meta.*
pub use Core.*
pub use Clusters.*
pub use ControlPlanes.*
pub use Machines.*
