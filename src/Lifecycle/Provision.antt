-- ===== src/Lifecycle/Provision.antt =====
-- The first two phases: `handleInitialization` and `handleProvisioning`.
use pishop_operator.Base.{◌∷◌, [], none, some, false, concat}
use pishop_operator.Api.{Phase}
use pishop_operator.Client.{Go, ◌>>=◌, ◌>>◌, pure, attempt, get_object}
use pishop_operator.Reconciler.{
  Reconciler, Reply, no_result, after, requeue_interval_short, emit, save_status, set_phase,
  namespace_of,
}
use pishop_operator.Conditions.{set_progressing_condition, record_provisioning_error}
use pishop_operator.Cluster.{create_namespace}
use pishop_operator.Provisioning.{provision_mongo_db, provision_nats, provision_redis}
use pishop_operator.Stack.Secrets.{create_mongo_db_secret}

module _ (r : Reconciler) where
  unfoldable pub handle_initialization : Go Reply
  handle_initialization = do
    x ← get_object
    emit r false "Initializing"
        (concat ("Starting initialization for PR #" ∷ x.spec.pr_number ∷ []))
    set_phase Phase.provisioning "Starting PR stack provisioning"
    set_progressing_condition r "Initializing" "Preparing to provision infrastructure"
    attempt (save_status r) (λ e. pure (no_result, some e))
        (pure (after requeue_interval_short, none))

  -- The end of `handleProvisioning`, once all is provisioned.
  unfoldable pub finish_provisioning : Go Reply
  finish_provisioning = do
    emit r false "ProvisioningComplete" "Infrastructure provisioning completed successfully"
    set_phase Phase.deploying "Resources provisioned, starting service deployment"
    set_progressing_condition r "Deploying" "Deploying services to cluster"
    attempt (save_status r) (λ e. pure (no_result, some e))
        (pure (after requeue_interval_short, none))

  unfoldable pub handle_provisioning : Go Reply
  unfolding finish_provisioning
  handle_provisioning = do
    x ← get_object
    emit r false "Provisioning"
        (concat ("Provisioning infrastructure for PR #" ∷ x.spec.pr_number ∷ []))
    set_progressing_condition r "Provisioning" "Provisioning MongoDB, NATS, and Redis"
    attempt (create_namespace r (namespace_of x)) (record_provisioning_error r "Namespace") (
        attempt (provision_mongo_db r) (record_provisioning_error r "MongoDB") (
          attempt (create_mongo_db_secret r) (record_provisioning_error r "MongoDB secret") (
            attempt (provision_nats r) (record_provisioning_error r "NATS") (
              attempt (provision_redis r) (record_provisioning_error r "Redis")
                finish_provisioning))))
