-- ===== src/Api/Core.antt =====
-- Pods, services and secrets, with the fields that the templates fill and the controllers read.
use kink.Base.{ℕ, String, Bool, List, Dict}
use kink.Api.Meta.{ObjectMeta}

pub record EnvVar : Type 0 where
  pub name : String
  pub value_from_field_path : String

pub record VolumeMount : Type 0 where
  pub name : String
  pub mount_path : String

-- A volume whose source is a secret.
pub record Volume : Type 0 where
  pub name : String
  pub secret_name : String

pub record Container : Type 0 where
  pub name : String
  pub image : String
  pub env : List EnvVar
  pub command : List String
  pub args : List String
  pub volume_mounts : List VolumeMount

pub record PodSpec : Type 0 where
  pub restart_policy : String
  pub host_network : Bool
  pub dns_policy : String
  pub containers : List Container
  pub volumes : List Volume

pub record Pod : Type 0 where
  pub meta : ObjectMeta
  pub spec : PodSpec
  pub phase : String

pub record ServicePort : Type 0 where
  pub port : ℕ
  pub target_port : ℕ

pub record ServiceSpec : Type 0 where
  pub ports : List ServicePort
  pub selector : Dict String
  pub service_type : String

pub record Service : Type 0 where
  pub meta : ObjectMeta
  pub spec : ServiceSpec

pub record Secret : Type 0 where
  pub meta : ObjectMeta
  pub contents : Dict String
  pub secret_type : String
