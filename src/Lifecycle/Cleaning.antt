-- ===== src/Lifecycle/Cleaning.antt =====
-- Deletion: `handleDeletion`, `handleCleaning`, `containsString` and `removeString`.
use pishop_operator.Base.{
  String, List, ◌∷◌, [], Option, none, some, Bool, true, false, ◌&&◌, concat, if◌then◌else◌, str_eq,
  is_some,
}
use pishop_operator.Api.{Phase, BackupConfig}
use pishop_operator.Client.{Error, Go, ◌>>=◌, ◌>>◌, pure, attempt, get_object, modify}
use pishop_operator.Reconciler.{
  Reconciler, Reply, no_result, after, requeue_interval_short, requeue_interval_medium, emit,
  save_status, save_stack, set_phase, finalizer_name,
}
use pishop_operator.Conditions.{update_status_with_error}
use pishop_operator.Cleanup.{cleanup_all_resources, cleanup_mongo_db, cleanup_nats, cleanup_redis}
use pishop_operator.Backup.{create_backup}

unfoldable pub contains_string : List String → String → Bool
contains_string [] s = false
contains_string (t ∷ ts) s = if str_eq t s then true else contains_string ts s

-- The first occurrence is taken out.
unfoldable pub remove_string : List String → String → List String
remove_string [] s = []
remove_string (t ∷ ts) s = if str_eq t s then ts else t ∷ remove_string ts s

abbrev is_enabled : Option BackupConfig → Bool
is_enabled none = false
is_enabled (some c) = c.enabled

abbrev pub is_cleaning : Phase → Bool
is_cleaning Phase.cleaning = true
is_cleaning _ = false

module _ (r : Reconciler) where
  -- The final backup, whose error is only logged.
  unfoldable pub final_backup : Go (Unit {0})
  final_backup = do
    x ← get_object
    if is_enabled x.spec.backup_config && is_some x.status.mongo_db
        then create_backup r >> pure tt
        else pure tt

  unfoldable pub fail_cleaning : String → Error → Go Reply
  fail_cleaning message e = do
    update_status_with_error r message e
    pure (after requeue_interval_medium, some e)

  -- The end of `handleCleaning`: the status first, then the finalizer.
  unfoldable pub finish_cleaning : Go Reply
  finish_cleaning = do
    set_phase Phase.cleaned "All resources have been cleaned up"
    attempt (save_status r) (λ e. pure (no_result, some e))
        do
          x ← get_object
          emit r false "CleanupComplete" (
              concat
                ("All resources for PR #" ∷ x.spec.pr_number ∷ " cleaned up successfully" ∷ []))
          modify λ y. record y { finalizers = remove_string y.finalizers finalizer_name }
          attempt (save_stack r) (λ e. pure (no_result, some e)) (pure (no_result, none))

  unfoldable pub handle_cleaning : Go Reply
  unfolding final_backup fail_cleaning
  handle_cleaning = do
    x ← get_object
    emit r false "Cleaning" (concat ("Cleaning up all resources for PR #" ∷ x.spec.pr_number ∷ []))
    final_backup
    attempt (cleanup_all_resources r) (fail_cleaning "Kubernetes cleanup failed") (
        attempt (cleanup_mongo_db r) (fail_cleaning "MongoDB cleanup failed") (
          attempt (cleanup_nats r) (fail_cleaning "NATS cleanup failed")
            (attempt (cleanup_redis r) (fail_cleaning "Redis cleanup failed") finish_cleaning)))

  unfoldable pub handle_deletion : Go Reply
  handle_deletion = do
    x ← get_object
    if is_cleaning x.status.phase then handle_cleaning else do
      set_phase Phase.cleaning "Cleaning up PR stack resources"
      attempt (save_status r) (λ e. pure (no_result, some e))
          (pure (after requeue_interval_short, none))
