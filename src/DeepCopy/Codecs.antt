-- ===== src/DeepCopy/Codecs.antt =====
-- How each type stands in a cell.
use kink.Base.{ℤ, String, refl, none, some, List}
use kink.Api.{ObjectReference}
use kink.DeepCopy.Memory.{Codec}
use kink.DeepCopy.Structs.{
  ForeignTypes, Cell, string_cell, int32_cell, references_cell, conditions_cell, cluster_cell,
  cluster_items_cell, cluster_list_cell, cluster_spec_cell, cluster_status_cell, machine_cell,
  machine_items_cell, machine_list_cell, machine_spec_cell, machine_status_cell,
  machine_template_cell, machine_template_items_cell, machine_template_list_cell,
  machine_template_spec_cell, machine_template_status_cell, control_plane_cell,
  control_plane_items_cell, control_plane_list_cell, control_plane_spec_cell,
  control_plane_status_cell, alpha_control_plane_cell, alpha_control_plane_items_cell,
  alpha_control_plane_list_cell, alpha_control_plane_spec_cell, alpha_control_plane_status_cell,
  ClusterStruct, ClusterListStruct, ClusterSpecStruct, ClusterStatusStruct, MachineStruct,
  MachineListStruct, MachineSpecStruct, MachineStatusStruct, MachineTemplateStruct,
  MachineTemplateListStruct, MachineTemplateSpecStruct, MachineTemplateStatusStruct,
  ControlPlaneStruct, ControlPlaneListStruct, ControlPlaneSpecStruct, ControlPlaneStatusStruct,
  AlphaControlPlaneStruct, AlphaControlPlaneListStruct, AlphaControlPlaneSpecStruct,
  AlphaControlPlaneStatusStruct,
}

module _ (F : ForeignTypes) where
  abbrev pub string_codec : Codec (Cell F) String
  string_codec = record {
    encode = string_cell;
    decode = λ c. elim c [ string_cell x ↦ some x | _ ↦ none ];
    decode-encode = λ x. refl;
  }

  abbrev pub int32_codec : Codec (Cell F) ℤ
  int32_codec = record {
    encode = int32_cell;
    decode = λ c. elim c [ int32_cell x ↦ some x | _ ↦ none ];
    decode-encode = λ x. refl;
  }

  abbrev pub references_codec : Codec (Cell F) (List ObjectReference)
  references_codec = record {
    encode = references_cell;
    decode = λ c. elim c [ references_cell x ↦ some x | _ ↦ none ];
    decode-encode = λ x. refl;
  }

  abbrev pub conditions_codec : Codec (Cell F) (List F.Condition)
  conditions_codec = record {
    encode = conditions_cell;
    decode = λ c. elim c [ conditions_cell x ↦ some x | _ ↦ none ];
    decode-encode = λ x. refl;
  }

  abbrev pub cluster_codec : Codec (Cell F) (ClusterStruct F)
  cluster_codec = record {
    encode = cluster_cell;
    decode = λ c. elim c [ cluster_cell x ↦ some x | _ ↦ none ];
    decode-encode = λ x. refl;
  }

  abbrev pub cluster_items_codec : Codec (Cell F) (List (ClusterStruct F))
  cluster_items_codec = record {
    encode = cluster_items_cell;
    decode = λ c. elim c [ cluster_items_cell x ↦ some x | _ ↦ none ];
    decode-encode = λ x. refl;
  }

  abbrev pub cluster_list_codec : Codec (Cell F) (ClusterListStruct F)
  cluster_list_codec = record {
    encode = cluster_list_cell;
    decode = λ c. elim c [ cluster_list_cell x ↦ some x | _ ↦ none ];
    decode-encode = λ x. refl;
  }

  abbrev pub cluster_spec_codec : Codec (Cell F) ClusterSpecStruct
  cluster_spec_codec = record {
    encode = cluster_spec_cell;
    decode = λ c. elim c [ cluster_spec_cell x ↦ some x | _ ↦ none ];
    decode-encode = λ x. refl;
  }

  abbrev pub cluster_status_codec : Codec (Cell F) ClusterStatusStruct
  cluster_status_codec = record {
    encode = cluster_status_cell;
    decode = λ c. elim c [ cluster_status_cell x ↦ some x | _ ↦ none ];
    decode-encode = λ x. refl;
  }

  abbrev pub machine_codec : Codec (Cell F) (MachineStruct F)
  machine_codec = record {
    encode = machine_cell;
    decode = λ c. elim c [ machine_cell x ↦ some x | _ ↦ none ];
    decode-encode = λ x. refl;
  }

  abbrev pub machine_items_codec : Codec (Cell F) (List (MachineStruct F))
  machine_items_codec = record {
    encode = machine_items_cell;
    decode = λ c. elim c [ machine_items_cell x ↦ some x | _ ↦ none ];
    decode-encode = λ x. refl;
  }

  abbrev pub machine_list_codec : Codec (Cell F) (MachineListStruct F)
  machine_list_codec = record {
    encode = machine_list_cell;
    decode = λ c. elim c [ machine_list_cell x ↦ some x | _ ↦ none ];
    decode-encode = λ x. refl;
  }

  abbrev pub machine_spec_codec : Codec (Cell F) MachineSpecStruct
  machine_spec_codec = record {
    encode = machine_spec_cell;
    decode = λ c. elim c [ machine_spec_cell x ↦ some x | _ ↦ none ];
    decode-encode = λ x. refl;
  }

  abbrev pub machine_status_codec : Codec (Cell F) MachineStatusStruct
  machine_status_codec = record {
    encode = machine_status_cell;
    decode = λ c. elim c [ machine_status_cell x ↦ some x | _ ↦ none ];
    decode-encode = λ x. refl;
  }

  abbrev pub machine_template_codec : Codec (Cell F) (MachineTemplateStruct F)
  machine_template_codec = record {
    encode = machine_template_cell;
    decode = λ c. elim c [ machine_template_cell x ↦ some x | _ ↦ none ];
    decode-encode = λ x. refl;
  }

  abbrev pub machine_template_items_codec : Codec (Cell F) (List (MachineTemplateStruct F))
  machine_template_items_codec = record {
    encode = machine_template_items_cell;
    decode = λ c. elim c [ machine_template_items_cell x ↦ some x | _ ↦ none ];
    decode-encode = λ x. refl;
  }

  abbrev pub machine_template_list_codec : Codec (Cell F) (MachineTemplateListStruct F)
  machine_template_list_codec = record {
    encode = machine_template_list_cell;
    decode = λ c. elim c [ machine_template_list_cell x ↦ some x | _ ↦ none ];
    decode-encode = λ x. refl;
  }

  abbrev pub machine_template_spec_codec : Codec (Cell F) MachineTemplateSpecStruct
  machine_template_spec_codec = record {
    encode = machine_template_spec_cell;
    decode = λ c. elim c [ machine_template_spec_cell x ↦ some x | _ ↦ none ];
    decode-encode = λ x. refl;
  }

  abbrev pub machine_template_status_codec : Codec (Cell F) MachineTemplateStatusStruct
  machine_template_status_codec = record {
    encode = machine_template_status_cell;
    decode = λ c. elim c [ machine_template_status_cell x ↦ some x | _ ↦ none ];
    decode-encode = λ x. refl;
  }

  abbrev pub control_plane_codec : Codec (Cell F) (ControlPlaneStruct F)
  control_plane_codec = record {
    encode = control_plane_cell;
    decode = λ c. elim c [ control_plane_cell x ↦ some x | _ ↦ none ];
    decode-encode = λ x. refl;
  }

  abbrev pub control_plane_items_codec : Codec (Cell F) (List (ControlPlaneStruct F))
  control_plane_items_codec = record {
    encode = control_plane_items_cell;
    decode = λ c. elim c [ control_plane_items_cell x ↦ some x | _ ↦ none ];
    decode-encode = λ x. refl;
  }

  abbrev pub control_plane_list_codec : Codec (Cell F) (ControlPlaneListStruct F)
  control_plane_list_codec = record {
    encode = control_plane_list_cell;
    decode = λ c. elim c [ control_plane_list_cell x ↦ some x | _ ↦ none ];
    decode-encode = λ x. refl;
  }

  abbrev pub control_plane_spec_codec : Codec (Cell F) ControlPlaneSpecStruct
  control_plane_spec_codec = record {
    encode = control_plane_spec_cell;
    decode = λ c. elim c [ control_plane_spec_cell x ↦ some x | _ ↦ none ];
    decode-encode = λ x. refl;
  }

  abbrev pub control_plane_status_codec : Codec (Cell F) ControlPlaneStatusStruct
  control_plane_status_codec = record {
    encode = control_plane_status_cell;
    decode = λ c. elim c [ control_plane_status_cell x ↦ some x | _ ↦ none ];
    decode-encode = λ x. refl;
  }

  abbrev pub alpha_control_plane_codec : Codec (Cell F) (AlphaControlPlaneStruct F)
  alpha_control_plane_codec = record {
    encode = alpha_control_plane_cell;
    decode = λ c. elim c [ alpha_control_plane_cell x ↦ some x | _ ↦ none ];
    decode-encode = λ x. refl;
  }

  abbrev pub alpha_control_plane_items_codec : Codec (Cell F) (List (AlphaControlPlaneStruct F))
  alpha_control_plane_items_codec = record {
    encode = alpha_control_plane_items_cell;
    decode = λ c. elim c [ alpha_control_plane_items_cell x ↦ some x | _ ↦ none ];
    decode-encode = λ x. refl;
  }

  abbrev pub alpha_control_plane_list_codec : Codec (Cell F) (AlphaControlPlaneListStruct F)
  alpha_control_plane_list_codec = record {
    encode = alpha_control_plane_list_cell;
    decode = λ c. elim c [ alpha_control_plane_list_cell x ↦ some x | _ ↦ none ];
    decode-encode = λ x. refl;
  }

  abbrev pub alpha_control_plane_spec_codec : Codec (Cell F) AlphaControlPlaneSpecStruct
  alpha_control_plane_spec_codec = record {
    encode = alpha_control_plane_spec_cell;
    decode = λ c. elim c [ alpha_control_plane_spec_cell x ↦ some x | _ ↦ none ];
    decode-encode = λ x. refl;
  }

  abbrev pub alpha_control_plane_status_codec : Codec (Cell F) AlphaControlPlaneStatusStruct
  alpha_control_plane_status_codec = record {
    encode = alpha_control_plane_status_cell;
    decode = λ c. elim c [ alpha_control_plane_status_cell x ↦ some x | _ ↦ none ];
    decode-encode = λ x. refl;
  }
