-- ===== src/Backup.antt =====
-- The backup manager: `CreateBackup`, `RestoreBackup` and the jobs that they create,
-- controllers/backup_restore.go.
pub mod Scripts
pub mod Quiet
use pishop_operator.Base.{ℤ, String, List, ◌∷◌, [], ◌++◌, Option, none, some, concat}
use pishop_operator.Kube.{EnvVar, Job, Object, VolumeSource}
use pishop_operator.Client.{
  maybe, is_not_found, is_already_exists, Error, Reason, Call, Go, ◌>>=◌, ◌>>◌, pure, attempt,
  get_object, errorf,
}
use pishop_operator.Naming.{get_namespace_name}
use pishop_operator.Reconciler.{Reconciler, call, must_parse, now}
use pishop_operator.Service.Env.Var.{plain, from_secret}
use pishop_operator.Backup.Scripts.{generate_backup_script, generate_restore_script}

-- `BackupSpec` and `RestoreSpec` have these fields in common; the rest is not read.
pub record JobSpec : Type 0 where
  pub pr_number : String
  pub backup_name : String
  pub databases : List String

-- The job that `createBackupJob` and `createRestoreJob` build, which differ in their names, the
-- application's label and the script.
database_job : String → String → String → String → JobSpec → String → String → String → String → Job
database_job prefix app script pr_number spec cpu memory limit_cpu limit_memory = record {
  meta = record {
    name = concat (prefix ∷ spec.backup_name ∷ []);
    namespace = get_namespace_name pr_number;
    labels = ("app", app) ∷ ("pr-number", pr_number) ∷ ("backup", spec.backup_name) ∷ [];
    annotations = [];
  };
  ttl_seconds_after_finished = 3600;
  template = record {
    labels = ("app", app) ∷ ("pr-number", pr_number) ∷ [];
    annotations = [];
    restart_policy = "Never";
    image_pull_secrets = [];
    containers =
        record {
          name = app;
          image = "mongo:7.0";
          command = "/bin/bash" ∷ "-c" ∷ [];
          args = script ∷ [];
          ports = [];
          env =
              from_secret "MONGO_URI" "mongodb-secret" "uri"
              ∷ from_secret "MONGO_USERNAME" "mongodb-secret" "username"
              ∷ from_secret "MONGO_PASSWORD" "mongodb-secret" "password"
              ∷ plain "BACKUP_NAME" spec.backup_name
              ∷ plain "PR_NUMBER" spec.pr_number
              ∷ [];
          volume_mounts = record { name = "backup-storage"; mount_path = "/backup" } ∷ [];
          resources = record {
            requests = ("cpu", cpu) ∷ ("memory", memory) ∷ [];
            limits = ("cpu", limit_cpu) ∷ ("memory", limit_memory) ∷ [];
          };
          liveness_probe = none;
          readiness_probe = none;
        }
        ∷ [];
    volumes =
        record {
          name = "backup-storage";
          source = VolumeSource.persistent_volume_claim "mongodb-backup-pvc";
        }
        ∷ [];
  };
}

abbrev no_mongo_db : Error
no_mongo_db = record { reason = Reason.unspecified; text = "MongoDB status not available" }

module _ (r : Reconciler) where
  -- A job with its quantities parsed.
  unfoldable pub build_job : String → String → String → String → JobSpec → Go Job
  unfolding database_job
  build_job prefix app script pr_number spec = do
    cpu ← must_parse r "0m"
    memory ← must_parse r "0Mi"
    limit_cpu ← must_parse r "500m"
    limit_memory ← must_parse r "1Gi"
    pure (database_job prefix app script pr_number spec cpu memory limit_cpu limit_memory)

  unfoldable pub create_backup_job : String → JobSpec → Go Job
  unfolding build_job
  create_backup_job pr_number spec =
      build_job "backup-" "mongodb-backup" (generate_backup_script spec.databases) pr_number spec

  unfoldable pub create_restore_job : String → JobSpec → Go Job
  unfolding build_job
  create_restore_job pr_number spec =
      build_job "restore-" "mongodb-restore" (generate_restore_script spec.databases) pr_number spec

  unfoldable pub create_backup : Go (Option Error)
  create_backup = do
    x ← get_object
    maybe x.status.mongo_db (pure (some no_mongo_db)) (λ m. do
      t ← now r
      job ← create_backup_job x.spec.pr_number (record {
        pr_number = x.spec.pr_number;
        backup_name = concat ("pr-" ∷ x.spec.pr_number ∷ "-" ∷ r.client.stamp_text t ∷ []);
        databases = m.databases;
      })
      attempt (call r (Call.create (Object.job job)))
          (λ e. pure (some (errorf "failed to create backup job: " e))) (pure none))

  unfoldable pub restore_backup : String → Go (Option Error)
  restore_backup backup_name = do
    x ← get_object
    maybe x.status.mongo_db (pure (some no_mongo_db)) (λ m. do
      job ← create_restore_job x.spec.pr_number (record {
        pr_number = x.spec.pr_number;
        backup_name = backup_name;
        databases = m.databases;
      })
      attempt (call r (Call.create (Object.job job)))
          (λ e. pure (some (errorf "failed to create restore job: " e))) (pure none))

-- `ListBackups`: two texts, which depend on the number alone, and no error.
unfoldable pub list_backups : String → Go (List String × Option Error)
list_backups pr_number = pure (
  concat ("pr-" ∷ pr_number ∷ "-20240101-120000" ∷ [])
      ∷ concat ("pr-" ∷ pr_number ∷ "-20240102-120000" ∷ [])
      ∷ [],
  none,
)

-- `CleanupOldBackups`, which makes no call.
unfoldable pub cleanup_old_backups : String → ℤ → Go (Option Error)
cleanup_old_backups pr_number retention_days = pure none
