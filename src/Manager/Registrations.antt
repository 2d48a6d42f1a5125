-- ===== src/Manager/Registrations.antt =====
-- `SetupWithManager` of the three controllers: what each of them reconciles, and what else wakes it.
use kink.Base.{Option, List, [], ◌∷◌}
use kink.Api.{NamespacedName, control_plane_group_version, infrastructure_group_version}
use kink.ControlPlane.Watch.{Object, cluster_to_control_plane}
use kink.Manager.Types.{ObjectType, own, kubernetes, cluster_api}

-- The calls on the builder: `For`, `Owns`, and `Watches` with its map function.
pub record Registration : Type 0 where
  pub for_type : ObjectType
  pub owns : List ObjectType
  pub watches : List (ObjectType × (Object → Option (List NamespacedName)))

abbrev pub kink_control_plane_type : ObjectType
kink_control_plane_type = own control_plane_group_version "KinkControlPlane"

abbrev pub kink_machine_type : ObjectType
kink_machine_type = own infrastructure_group_version "KinkMachine"

abbrev pub kink_cluster_type : ObjectType
kink_cluster_type = own infrastructure_group_version "KinkCluster"

abbrev pub control_plane_registration : Registration
control_plane_registration = record {
  for_type = kink_control_plane_type;
  owns =
      kink_machine_type ∷ kubernetes "ConfigMap" ∷ kubernetes "Secret" ∷ kubernetes "Service" ∷ [];
  watches = (cluster_api "Cluster", cluster_to_control_plane) ∷ [];
}

abbrev pub machine_registration : Registration
machine_registration = record {
  for_type = kink_machine_type;
  owns = kubernetes "Pod" ∷ [];
  watches = [];
}

abbrev pub cluster_registration : Registration
cluster_registration = record { for_type = kink_cluster_type; owns = []; watches = [] }
