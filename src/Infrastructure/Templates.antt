-- ===== src/Infrastructure/Templates.antt =====
-- controllers/infrastructure/templates: the pods and the service of one control plane machine.
pub mod Util
pub mod Etcd
pub mod ApiServer
pub mod ControllerManager
pub mod Scheduler
pub mod Agree
