-- ===== src/Lifecycle/Phases/Handlers.antt =====
-- The steps of the phases that one reconciliation takes, and the handlers that take them.
use pishop_operator.Base.{ℕ, String, List, ◌∷◌, [], refl, Bool, true, false, some}
use pishop_operator.Kube.{Deployment}
use pishop_operator.Api.{Phase, ServiceStatus, MongoDbCredentials}
use pishop_operator.Client.{Error, attempt, modify}
use pishop_operator.Reconciler.{Reconciler, finalizer_name, set_message}
use pishop_operator.Naming.{default_services}
use pishop_operator.Cluster.{scale_deployments}
use pishop_operator.Cluster.Quiet.{create_namespace-Quiet, scale_deployments-Quiet}
use pishop_operator.Provisioning.{
  create_databases, provision_connected, provision_mongo_db, provision_nats, provision_redis,
}
use pishop_operator.Provisioning.Quiet.{create_databases-Quiet}
use pishop_operator.Stack.Quiet.{
  create_mongo_db_secret-Quiet, create_registry_secret-Quiet, ensure_backup_storage-Quiet,
}
use pishop_operator.Conditions.{update_status_with_error}
use pishop_operator.Cleanup.{cleanup_all_resources, cleanup_mongo_db, cleanup_nats, cleanup_redis}
use pishop_operator.Cleanup.Quiet.{
  cleanup_all_resources-Quiet, cleanup_mongo_db-Quiet, cleanup_nats-Quiet, cleanup_redis-Quiet,
}
use pishop_operator.Lifecycle.Expiry.{
  is_stack_expired, handle_stack_expiration, inactive_message, handle_inactive_stack,
}
use pishop_operator.Lifecycle.Safety.Expiry.{is_stack_expired-Quiet}
use pishop_operator.Lifecycle.Provision.{
  handle_initialization, finish_provisioning, handle_provisioning,
}
use pishop_operator.Lifecycle.Deploy.{
  all_failed, some_failed, none_failed, conclude, deploy_services, fail_deployment,
  handle_deployment,
}
use pishop_operator.Lifecycle.Running.{
  scale_to_match, match_replicas, report_health, handle_running,
}
use pishop_operator.Lifecycle.Cleaning.{
  fail_cleaning, finish_cleaning, handle_cleaning, remove_string,
}
use pishop_operator.Lifecycle.Main.{reconcile_inactive}
use pishop_operator.Lifecycle.Safety.Invariant.{Server}
use pishop_operator.Lifecycle.Phases.Rules.{
  Within, within, Within-modify, Quiet-Within, set_condition_now-Within, set_ready_condition-Within,
  set_progressing_condition-Within, update_status_with_error-Within,
  record_provisioning_error-Within,
}
use pishop_operator.Lifecycle.Phases.Resources.{
  deploy_each-Within, create_mongo_db_resources-Within, create_nats_resources-Within,
  create_redis_resources-Within, final_backup-Within,
}

-- The phase stored before a reconciliation, and one that may be stored after it. A phase is entered
-- in order only: Deploying from Provisioning, Running and Degraded from Deploying, Cleaned from Cleaning.
pub data Step : Phase → Phase → Type 0 where
  stay : (p : Phase) → Step p p
  fail : (p : Phase) → Step p Phase.failed
  sleep : (p : Phase) → Step p Phase.inactive
  clean : (p : Phase) → Step p Phase.cleaning
  start : Step Phase.initialization Phase.provisioning
  wake : Step Phase.inactive Phase.initialization
  restart : Step Phase.inactive Phase.provisioning
  provisioned : Step Phase.provisioning Phase.deploying
  degrade : Step Phase.deploying Phase.degraded
  deployed : Step Phase.deploying Phase.running
  finish : Step Phase.cleaning Phase.cleaned

module _ (r : Reconciler) (server : Server r.client) where
  pub initialization-Within :
      (p : Phase) → Step p Phase.provisioning → Within r server (Step p) (handle_initialization r)
  unfolding handle_initialization
  initialization-Within p step = search (within, set_progressing_condition-Within, step) depth 8

  pub write_phase-Within :
      (p q : Phase)
      → Step p q
      → Within r server (Step p) (modify λ y. record y { status = record (y.status) { phase = q } })
  write_phase-Within p q step = record { run = λ s h. record { held = step; kept = h.kept } }

  pub reconcile_inactive-Within : Within r server (Step Phase.inactive) (reconcile_inactive r)
  unfolding reconcile_inactive
  reconcile_inactive-Within =
      search (within, write_phase-Within, initialization-Within, wake, restart) depth 10

  write_mongo_db-Within :
      (p : Phase) (m : MongoDbCredentials)
      → Within r server
          (Step p)
          (modify λ y. record y { status = record (y.status) { mongo_db = some m } })
  write_mongo_db-Within p m = Within-modify r server (Step p) _ λ x. refl

  databases-Within :
      (p : Phase) (number : String)
      → Within r server (Step p) (create_databases r number default_services)
  databases-Within p number =
      Quiet-Within r server (Step p) _ (create_databases-Quiet r number default_services)

  provision_connected-Within : (p : Phase) → Within r server (Step p) (provision_connected r)
  unfolding provision_connected
  provision_connected-Within p = search (within, databases-Within, write_mongo_db-Within) depth 14

  provision_mongo_db-Within : (p : Phase) → Within r server (Step p) (provision_mongo_db r)
  unfolding provision_mongo_db
  provision_mongo_db-Within p = search (within, provision_connected-Within) depth 8

  provision_nats-Within : (p : Phase) → Within r server (Step p) (provision_nats r)
  unfolding provision_nats
  provision_nats-Within p = record { run = λ s h. record { held = h.held; kept = h.kept } }

  provision_redis-Within : (p : Phase) → Within r server (Step p) (provision_redis r)
  unfolding provision_redis
  provision_redis-Within p = record { run = λ s h. record { held = h.held; kept = h.kept } }

  finish_provisioning-Within : Within r server (Step Phase.provisioning) (finish_provisioning r)
  unfolding finish_provisioning
  finish_provisioning-Within =
      search (within, set_progressing_condition-Within, provisioned) depth 10

  pub handle_provisioning-Within : Within r server (Step Phase.provisioning) (handle_provisioning r)
  unfolding handle_provisioning
  handle_provisioning-Within =
      search
        (
          within, set_progressing_condition-Within, record_provisioning_error-Within, fail,
          Quiet-Within, create_namespace-Quiet, create_mongo_db_secret-Quiet,
          provision_mongo_db-Within, provision_nats-Within, provision_redis-Within,
          finish_provisioning-Within,
        )
        depth 12

  conclude-Within :
      (number : String) (failures total reported : ℕ)
      → Within r server (Step Phase.deploying) (conclude r number failures total reported)
  unfolding conclude all_failed some_failed none_failed
  conclude-Within number failures total reported =
      search
        (
          within, set_condition_now-Within, set_ready_condition-Within,
          set_progressing_condition-Within, fail, degrade, deployed,
        )
        depth 12

  write_services-Within :
      (statuses : List ServiceStatus)
      → Within r server
          (Step Phase.deploying)
          (modify λ y. record y { status = record (y.status) { services = statuses } })
  write_services-Within statuses = Within-modify r server _ _ λ x. refl

  deploy_services-Within : Within r server (Step Phase.deploying) (deploy_services r)
  unfolding deploy_services
  deploy_services-Within =
      search (within, deploy_each-Within, write_services-Within, conclude-Within) depth 10

  fail_deployment-Within :
      (message : String) (e : Error)
      → Within r server (Step Phase.deploying) (fail_deployment r message e)
  unfolding fail_deployment
  fail_deployment-Within message e = search (within, update_status_with_error-Within, fail)

  pub handle_deployment-Within : Within r server (Step Phase.deploying) (handle_deployment r)
  unfolding handle_deployment
  handle_deployment-Within =
      let registry = λ (namespace : String).
        Quiet-Within r server (Step Phase.deploying) _ (create_registry_secret-Quiet r namespace) in
      let storage = λ (namespace : String).
        Quiet-Within r server (Step Phase.deploying) _ (ensure_backup_storage-Quiet r namespace) in
      search
        (
          within, registry, storage, create_mongo_db_resources-Within, create_nats_resources-Within,
          create_redis_resources-Within, fail_deployment-Within, deploy_services-Within,
        )
        depth 14

  module _ (p : Phase) where
    scale_to_match-Within :
        (namespace : String) (n : ℕ) (ds : List Deployment)
        → Within r server (Step p) (scale_to_match r namespace n ds)
    unfolding scale_to_match
    scale_to_match-Within namespace n [] = search within
    scale_to_match-Within namespace n (d ∷ ds) =
        search (within, Quiet-Within, scale_deployments-Quiet)

    set_message-Within : (m : String) → Within r server (Step p) (set_message m)
    set_message-Within m = Within-modify r server (Step p) _ λ x. refl

    pub handle_running-Within : Within r server (Step p) (handle_running r)
    unfolding handle_running match_replicas report_health
    handle_running-Within = search (within, scale_to_match-Within, set_message-Within) depth 10

  remove_finalizer-Within :
      (p : Phase)
      → Within r server
          (Step p)
          (modify λ y. record y { finalizers = remove_string y.finalizers finalizer_name })
  remove_finalizer-Within p = Within-modify r server (Step p) _ λ x. refl

  finish_cleaning-Within : Within r server (Step Phase.cleaning) (finish_cleaning r)
  unfolding finish_cleaning
  finish_cleaning-Within = search (within, remove_finalizer-Within, finish) depth 12

  fail_cleaning-Within :
      (message : String) (e : Error)
      → Within r server (Step Phase.cleaning) (fail_cleaning r message e)
  unfolding fail_cleaning
  fail_cleaning-Within message e = search (within, update_status_with_error-Within, fail)

  all_resources-Within : Within r server (Step Phase.cleaning) (cleanup_all_resources r)
  all_resources-Within =
      Quiet-Within r server (Step Phase.cleaning) (cleanup_all_resources r)
        (cleanup_all_resources-Quiet r)

  mongo_db-Within : Within r server (Step Phase.cleaning) (cleanup_mongo_db r)
  mongo_db-Within =
      Quiet-Within r server (Step Phase.cleaning) (cleanup_mongo_db r) (cleanup_mongo_db-Quiet r)

  nats-Within : Within r server (Step Phase.cleaning) (cleanup_nats r)
  nats-Within = Quiet-Within r server (Step Phase.cleaning) (cleanup_nats r) (cleanup_nats-Quiet r)

  redis-Within : Within r server (Step Phase.cleaning) (cleanup_redis r)
  redis-Within =
      Quiet-Within r server (Step Phase.cleaning) (cleanup_redis r) (cleanup_redis-Quiet r)

  -- The removal of what the stack holds, once a last backup is under way.
  removal-Within : Within r server (Step Phase.cleaning) (
      attempt (cleanup_all_resources r) (fail_cleaning r "Kubernetes cleanup failed") (
        attempt (cleanup_mongo_db r) (fail_cleaning r "MongoDB cleanup failed") (
          attempt (cleanup_nats r) (fail_cleaning r "NATS cleanup failed") (
            attempt
              (cleanup_redis r)
              (fail_cleaning r "Redis cleanup failed")
              (finish_cleaning r)))))
  removal-Within =
      search
        (
          within, all_resources-Within, mongo_db-Within, nats-Within, redis-Within,
          fail_cleaning-Within, finish_cleaning-Within,
        )
        depth 14

  pub handle_cleaning-Within : Within r server (Step Phase.cleaning) (handle_cleaning r)
  unfolding handle_cleaning
  handle_cleaning-Within = search (within, final_backup-Within, removal-Within) depth 10

  module _ (p : Phase) where
    expired-Within : Within r server (Step p) (is_stack_expired r)
    expired-Within = Quiet-Within r server (Step p) _ (is_stack_expired-Quiet r)

    inactive_message-Within : (b : Bool) → Within r server (Step p) (inactive_message r b)
    unfolding inactive_message
    inactive_message-Within false = set_message-Within p _
    inactive_message-Within true = search (within, set_message-Within) depth 8

    scaled-Within :
        (namespace : String) → Within r server (Step p) (scale_deployments r namespace 0)
    scaled-Within namespace =
        Quiet-Within r server (Step p) (scale_deployments r namespace 0)
          (scale_deployments-Quiet r namespace 0)

    asleep-Within :
        Within r server
          (Step p)
          (modify λ y. record y { status = record (y.status) { phase = Phase.inactive } })
    asleep-Within = write_phase-Within p Phase.inactive (sleep p)

    errors-Within :
        (message : String) (e : Error)
        → Within r server (Step p) (update_status_with_error r message e)
    errors-Within = update_status_with_error-Within r server (Step p) (fail p)

    pub handle_inactive_stack-Within : Within r server (Step p) (handle_inactive_stack r)
    unfolding handle_inactive_stack
    handle_inactive_stack-Within =
        search
          (
            within, expired-Within, scaled-Within, asleep-Within, inactive_message-Within,
            errors-Within,
          )
          depth 14

    deactivate-Within :
        Within r server
          (Step p)
          (modify λ y. record y { spec = record (y.spec) { active = false } })
    deactivate-Within = Within-modify r server (Step p) _ λ x. refl

    pub handle_stack_expiration-Within : Within r server (Step p) (handle_stack_expiration r)
    unfolding handle_stack_expiration
    handle_stack_expiration-Within = search (within, deactivate-Within) depth 12
