-- ===== src/Api/Meta.antt =====
-- Object metadata and references, with the fields that the controllers use.
use kink.Base.{String, Bool, Option, List, Dict}

pub record NamespacedName : Type 0 where
  pub namespace : String
  pub name : String

pub record OwnerReference : Type 0 where
  pub api_version : String
  pub kind : String
  pub name : String
  pub uid : String
  pub controller : Option Bool
  pub block_owner_deletion : Option Bool

pub record ObjectMeta : Type 0 where
  pub name : String
  pub namespace : String
  pub uid : String
  -- `none` is a nil map.
  pub labels : Option (Dict String)
  pub owner_references : List OwnerReference

pub record ObjectReference : Type 0 where
  pub name : String
  pub namespace : String
  pub uid : String
  pub api_version : String
  pub kind : String

pub record GroupVersion : Type 0 where
  pub group : String
  pub version : String
