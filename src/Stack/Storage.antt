-- ===== src/Stack/Storage.antt =====
-- The storage of backups: controllers/backup_pvc.go.
use pishop_operator.Base.{
  not, String, ◌∷◌, [], Option, none, some, false, concat, if◌then◌else◌, pos,
}
use pishop_operator.Kube.{Kind, Object}
use pishop_operator.Api.{PrStack, BackupConfig}
use pishop_operator.Client.{is_not_found, Error, Call, Go, ◌>>=◌, pure, attempt, get_object, errorf}
use pishop_operator.Reconciler.{Reconciler, call}
use pishop_operator.Stack.Ingress.{or_default}

abbrev pub no_backup : BackupConfig
no_backup = record {
  enabled = false;
  schedule = "";
  retention_days = pos 0;
  storage_class = "standard";
  storage_size = "10Gi";
}

abbrev pub config_or_default : Option BackupConfig → BackupConfig
config_or_default none = no_backup
config_or_default (some c) = c

module _ (r : Reconciler) where
  -- `createBackupPVC` of the stack given.
  unfoldable pub create_claim : PrStack → String → Go (Option Error)
  create_claim x namespace = do
    let config = config_or_default x.spec.backup_config
    let storage_size = or_default config.storage_size "10Gi"
    let storage_class = or_default config.storage_class "standard"
    let claim = Object.persistent_volume_claim (record {
      meta = record {
        name = "mongodb-backup-pvc";
        namespace = namespace;
        labels =
            ("app", "mongodb-backup")
            ∷ ("pr-number", x.spec.pr_number)
            ∷ ("component", "backup-storage")
            ∷ [];
        annotations = [];
      };
      access_modes = "ReadWriteOnce" ∷ [];
      storage_request = storage_size;
      storage_class_name = storage_class;
    })
    if config.enabled
        then attempt (pure (r.client.parse_quantity storage_size))
            (λ e.
              pure (some (errorf (concat ("invalid storage size " ∷ storage_size ∷ ": " ∷ [])) e)))
            (attempt
              (call r (Call.get Kind.persistent_volume_claim_kind namespace "mongodb-backup-pvc"))
              (λ e.
                if not (is_not_found e)
                then pure (some (errorf "failed to check existing PVC: " e))
                else attempt (call r (Call.create claim))
                    (λ e'. pure (some (errorf "failed to create backup PVC: " e'))) (pure none))
              (pure none))
        else pure none

  unfoldable pub create_backup_pvc : String → Go (Option Error)
  create_backup_pvc namespace = do x ← get_object; create_claim x namespace

  unfoldable pub cleanup_backup_pvc : String → Go (Option Error)
  cleanup_backup_pvc namespace =
      attempt
        (call r (Call.delete Kind.persistent_volume_claim_kind namespace "mongodb-backup-pvc"))
        (λ e.
          if not (is_not_found e)
          then pure (some (errorf "failed to delete backup PVC: " e))
          else pure none)
        (pure none)

  unfoldable pub ensure_backup_storage : String → Go (Option Error)
  ensure_backup_storage namespace =
      attempt (create_backup_pvc namespace)
        (λ e. pure (some (errorf "failed to create backup PVC: " e))) (pure none)
