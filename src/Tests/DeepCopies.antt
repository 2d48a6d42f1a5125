-- ===== src/Tests/DeepCopies.antt =====
-- Deep copies of a cluster and of a control plane in a small memory.
use kink.Base.{pos, String, true, refl, none, some, List, [], ◌∷◌, pure}
use kink.DeepCopy.Structs.{
  ForeignTypes, TypeMeta, ClusterSpecStruct, Cell, string_cell, int32_cell, conditions_cell,
  cluster_cell, control_plane_cell,
}
use kink.DeepCopy.Shapes.{plain}
use kink.DeepCopy.Copies.{plain-IsDeepCopy}
use kink.DeepCopy.Foreign.{ForeignCopies, AreDeepCopies}
use kink.DeepCopy.Separate.{IsSeparate}
use kink.DeepCopy.Infrastructure.Shapes as Infrastructure
use kink.DeepCopy.Infrastructure.Deep.{infrastructure_copies}
use kink.DeepCopy.ControlPlane.Shapes as ControlPlane
use kink.DeepCopy.ControlPlane.Deep.{control_plane_copies}

-- Metadata and conditions as texts.
abbrev texts : ForeignTypes
texts = record { ObjectMeta = String; ListMeta = String; Condition = String; ForeignCell = String }

abbrev copies : ForeignCopies texts
copies = record {
  object_meta_shape = plain String;
  list_meta_shape = plain String;
  condition_shape = plain String;
  copy_object_meta = pure;
  copy_list_meta = pure;
  copy_condition = pure;
}

copies-AreDeepCopies : AreDeepCopies texts copies
copies-AreDeepCopies = record {
  object_meta_deep = plain-IsDeepCopy String;
  list_meta_deep = plain-IsDeepCopy String;
  condition_deep = plain-IsDeepCopy String;
}

abbrev endpoint : ClusterSpecStruct
endpoint = record { control_plane_endpoint = record { host = "h"; port = pos 6443 } }

abbrev cluster_type : TypeMeta
cluster_type = record { kind = "KinkCluster"; api_version = "v1beta1" }

abbrev control_plane_type : TypeMeta
control_plane_type = record { kind = "KinkControlPlane"; api_version = "v1beta1" }

abbrev memory : List (Cell texts)
memory =
    string_cell "no quota"
    ∷ conditions_cell ("Ready" ∷ "Degraded" ∷ [])
    ∷ cluster_cell (record {
      type_meta = cluster_type;
      meta = "prod";
      spec = endpoint;
      status = record {
        ready = true;
        failure_reason = some 0;
        failure_message = none;
        conditions = some 1;
      };
    })
    ∷ int32_cell (pos 3)
    ∷ control_plane_cell (record {
      type_meta = control_plane_type;
      meta = "prod";
      spec = record { replicas = some 3; cluster_name = "prod"; version = none };
      status = record {
        external_managed_control_plane = true;
        version = none;
        ready_replicas = pos 1;
        unavailable_replicas = pos 2;
        updated_replicas = pos 0;
        initialized = true;
        ready = true;
        failure_reason = none;
        failure_message = some 0;
        conditions = none;
      };
    })
    ∷ []

-- What the pointer to the cluster stands for.
abbrev cluster_value : (Infrastructure.pointer_shape copies Infrastructure.cluster).Value
cluster_value = some (
  cluster_type,
  ("prod", (endpoint, (true, (some "no quota", (none, some ("Ready" ∷ "Degraded" ∷ [])))))),
)

infrastructure_copies_example :
    IsSeparate
      (Infrastructure.pointer_shape copies Infrastructure.cluster)
      (Infrastructure.deep_copy copies Infrastructure.cluster)
      memory
      (some 2)
      cluster_value
infrastructure_copies_example =
    infrastructure_copies copies copies-AreDeepCopies Infrastructure.cluster memory (some 2)
      cluster_value refl

abbrev control_plane_value : (ControlPlane.pointer_shape copies ControlPlane.control_plane).Value
control_plane_value = some (
  control_plane_type,
  (
    "prod",
    (
      ("prod", (some (pos 3), none)),
      ((true, pos 1, pos 2, pos 0, true, true), (none, (none, (some "no quota", none)))),
    ),
  ),
)

control_plane_copies_example :
    IsSeparate
      (ControlPlane.pointer_shape copies ControlPlane.control_plane)
      (ControlPlane.deep_copy copies ControlPlane.control_plane)
      memory
      (some 4)
      control_plane_value
control_plane_copies_example =
    control_plane_copies copies copies-AreDeepCopies ControlPlane.control_plane memory (some 4)
      control_plane_value refl
