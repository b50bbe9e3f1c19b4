-- ===== src/Kube.antt =====
-- The Kubernetes objects that the controllers build, with the fields that they fill: the structs of
-- k8s.io/api as they are used in controllers/. A quantity is the text that it was parsed from, and a
-- map is the list of its entries. Replicas are never negative: the API server refuses such objects.
use pishop_operator.Base.{ℕ, String, List, Option}

abbrev pub Entries : Type 0
Entries = List (String × String)

pub record ObjectMeta : Type 0 where
  pub name : String
  pub namespace : String
  pub labels : Entries
  pub annotations : Entries

pub record SecretKeyRef : Type 0 where
  pub secret : String
  pub key : String

pub record EnvVar : Type 0 where
  pub name : String
  pub value : String
  pub value_from : Option SecretKeyRef

pub record ContainerPort : Type 0 where
  pub container_port : ℕ
  pub name : String

pub record VolumeMount : Type 0 where
  pub name : String
  pub mount_path : String

-- An HTTP probe.
pub record Probe : Type 0 where
  pub path : String
  pub port : ℕ
  pub initial_delay_seconds : ℕ
  pub period_seconds : ℕ

pub record ResourceRequirements : Type 0 where
  pub limits : Entries
  pub requests : Entries

pub record Container : Type 0 where
  pub name : String
  pub image : String
  pub command : List String
  pub args : List String
  pub ports : List ContainerPort
  pub env : List EnvVar
  pub volume_mounts : List VolumeMount
  pub resources : ResourceRequirements
  pub liveness_probe : Option Probe
  pub readiness_probe : Option Probe

pub data VolumeSource : Type 0 where
  empty_dir : VolumeSource
  persistent_volume_claim : String → VolumeSource

pub record Volume : Type 0 where
  pub name : String
  pub source : VolumeSource

pub record PodTemplate : Type 0 where
  pub labels : Entries
  pub annotations : Entries
  pub restart_policy : String
  pub image_pull_secrets : List String
  pub containers : List Container
  pub volumes : List Volume

pub record Deployment : Type 0 where
  pub meta : ObjectMeta
  pub replicas : Option ℕ
  pub selector : Entries
  pub template : PodTemplate

pub record ServicePort : Type 0 where
  pub name : String
  pub port : ℕ
  pub target_port : ℕ
  pub protocol : String

pub record Service : Type 0 where
  pub meta : ObjectMeta
  pub selector : Entries
  pub ports : List ServicePort

pub record ConfigMap : Type 0 where
  pub meta : ObjectMeta
  pub entries : Entries

pub record Secret : Type 0 where
  pub meta : ObjectMeta
  pub secret_type : String
  pub entries : Entries

pub record IngressTls : Type 0 where
  pub hosts : List String
  pub secret_name : String

-- An ingress with one rule and one path of type Prefix.
pub record Ingress : Type 0 where
  pub meta : ObjectMeta
  pub class_name : String
  pub host : String
  pub path : String
  pub backend_service : String
  pub backend_port : ℕ
  pub tls : List IngressTls

pub record PersistentVolumeClaim : Type 0 where
  pub meta : ObjectMeta
  pub access_modes : List String
  pub storage_request : String
  pub storage_class_name : String

pub record Job : Type 0 where
  pub meta : ObjectMeta
  pub ttl_seconds_after_finished : ℕ
  pub template : PodTemplate

pub data Kind : Type 0 where
  namespace_kind deployment_kind service_kind persistent_volume_claim_kind : Kind

pub data Object : Type 0 where
  namespace : String → Object
  deployment : Deployment → Object
  service : Service → Object
  config_map : ConfigMap → Object
  secret : Secret → Object
  ingress : Ingress → Object
  persistent_volume_claim : PersistentVolumeClaim → Object
  job : Job → Object
