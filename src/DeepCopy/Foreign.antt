-- ===== src/DeepCopy/Foreign.antt =====
-- The deep copies that the libraries provide for their structs, and the runtime's interface.
use kink.Base.{List, Option, none, some, Action}
use kink.DeepCopy.Structs.{ForeignTypes, Cell, Address}
use kink.DeepCopy.Shapes.{Shape}
use kink.DeepCopy.Copies.{IsDeepCopy}

-- `DeepCopyInto` of `metav1.ObjectMeta`, `metav1.ListMeta` and `clusterv1.Condition`.
pub record ForeignCopies (F : ForeignTypes) : Type 1 where
  pub object_meta_shape : Shape (Cell F) F.ObjectMeta
  pub list_meta_shape : Shape (Cell F) F.ListMeta
  pub condition_shape : Shape (Cell F) F.Condition
  pub copy_object_meta : F.ObjectMeta → Action (List (Cell F)) F.ObjectMeta
  pub copy_list_meta : F.ListMeta → Action (List (Cell F)) F.ListMeta
  pub copy_condition : F.Condition → Action (List (Cell F)) F.Condition

-- The libraries document their functions as deep copies.
pub record AreDeepCopies (F : ForeignTypes) (L : ForeignCopies F) : Type 1 where
  pub object_meta_deep : IsDeepCopy L.object_meta_shape L.copy_object_meta
  pub list_meta_deep : IsDeepCopy L.list_meta_shape L.copy_list_meta
  pub condition_deep : IsDeepCopy L.condition_shape L.copy_condition

-- A `runtime.Object` that is not nil: the type of a pointer, and the pointer.
pub data RuntimeObject : Type 0 where
  cluster_object cluster_list_object machine_object machine_list_object : Address → RuntimeObject
  machine_template_object machine_template_list_object : Address → RuntimeObject
  control_plane_object control_plane_list_object : Address → RuntimeObject

-- `if c := in.DeepCopy(); c != nil { return c }; return nil`: a nil pointer becomes the nil object.
abbrev pub as_object : (Address → RuntimeObject) → Option Address → Option RuntimeObject
as_object pointer none = none
as_object pointer (some p) = some (pointer p)
