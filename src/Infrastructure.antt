-- ===== src/Infrastructure.antt =====
-- controllers/infrastructure: the controllers of KinkMachine and KinkCluster, and the templates.
pub mod Role
pub mod Templates
pub mod Machine
pub mod ClusterController
