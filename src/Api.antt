-- ===== src/Api.antt =====
-- The PRStack resource: api/v1alpha1/prdatabase_types.go. A pointer is an option, a time is the
-- number of nanoseconds since some instant, and of the object's metadata the parts in use are kept.
use pishop_operator.Base.{ℕ, ℤ, String, List, Option, Bool}

pub record ResourceLimits : Type 0 where
  pub cpu_limit : String
  pub memory_limit : String
  pub storage_limit : String

pub record BackupConfig : Type 0 where
  pub enabled : Bool
  pub schedule : String
  pub retention_days : ℤ
  pub storage_class : String
  pub storage_size : String

pub record PrStackSpec : Type 0 where
  pub pr_number : String
  pub image_tag : String
  pub custom_domain : String
  pub ingress_tls_secret_name : String
  pub active : Bool
  pub deployed_at : Option ℕ
  pub mongo_uri : String
  pub mongo_username : String
  pub mongo_password : String
  pub nats_url : String
  pub redis_url : String
  pub services : List String
  pub environment : String
  pub resource_limits : Option ResourceLimits
  pub backup_config : Option BackupConfig

-- The phases are texts in the source: `initialization` is the empty one, and `other` is any that
-- the controller does not name.
pub data Phase : Type 0 where
  initialization provisioning deploying running inactive failed degraded cleaning cleaned : Phase
  other : String → Phase

pub record MongoDbCredentials : Type 0 where
  pub user : String
  pub password : String
  pub connection_string : String
  pub databases : List String

pub record NatsConfig : Type 0 where
  pub subject_prefix : String
  pub connection_string : String

pub record RedisConfig : Type 0 where
  pub key_prefix : String
  pub connection_string : String

pub record ServiceStatus : Type 0 where
  pub name : String
  pub status : String
  pub url : String
  pub message : String

-- metav1.Condition: `status` is "True", "False" or "Unknown".
pub record Condition : Type 0 where
  pub type : String
  pub status : String
  pub reason : String
  pub message : String
  pub last_transition_time : ℕ

pub record BackupJobStatus : Type 0 where
  pub name : String
  pub type : String
  pub status : String
  pub start_time : Option ℕ
  pub completion_time : Option ℕ
  pub message : String

pub record BackupStatus : Type 0 where
  pub last_backup_time : Option ℕ
  pub last_backup_name : String
  pub backup_count : ℕ
  pub last_backup_size : String
  pub backup_jobs : List BackupJobStatus

pub record PrStackStatus : Type 0 where
  pub phase : Phase
  pub message : String
  pub created_at : Option ℕ
  pub last_active_at : Option ℕ
  pub last_deployed_at : Option ℕ
  pub mongo_db : Option MongoDbCredentials
  pub nats : Option NatsConfig
  pub redis : Option RedisConfig
  pub services : List ServiceStatus
  pub conditions : List Condition
  pub backup : Option BackupStatus

pub record PrStack : Type 0 where
  pub name : String
  pub finalizers : List String
  pub deletion_timestamp : Option ℕ
  pub spec : PrStackSpec
  pub status : PrStackStatus
