-- ===== src/Lifecycle/Safety/Handlers.antt =====
-- Safety of the handlers of initialization, of a running stack and of deletion.
use pishop_operator.Base.{String, ◌≢◌, refl, Bool, false, List, ◌∷◌, [], ℕ}
use pishop_operator.Kube.{Deployment}
use pishop_operator.Api.{Phase}
use pishop_operator.Client.{Error, modify}
use pishop_operator.Reconciler.{Reconciler, finalizer_name}
use pishop_operator.Cluster.Quiet.{scale_deployments-Quiet}
use pishop_operator.Provisioning.Quiet.{ParsesLiterals}
use pishop_operator.Lifecycle.Provision.{handle_initialization}
use pishop_operator.Lifecycle.Running.{scale_to_match, handle_running}
use pishop_operator.Lifecycle.Cleaning.{
  handle_cleaning, handle_deletion, final_backup, fail_cleaning, finish_cleaning, remove_string,
}
use pishop_operator.Cleanup.{cleanup_all_resources, cleanup_mongo_db, cleanup_nats, cleanup_redis}
use pishop_operator.Cleanup.Quiet.{
  cleanup_all_resources-Quiet, cleanup_mongo_db-Quiet, cleanup_nats-Quiet, cleanup_redis-Quiet,
}
use pishop_operator.Backup.Quiet.{create_backup-Quiet}
use pishop_operator.Lifecycle.Safety.Invariant.{Server, SameStatus-refl}
use pishop_operator.Lifecycle.Safety.Keeps.{
  Keeps, keeps, Quiet→Keeps, Keeps-modify, save_stack-Keeps, set_progressing_condition-Keeps,
  update_status_with_error-Keeps,
}

provisioning-ne : Phase.provisioning ≢ Phase.deploying
provisioning-ne e = cc

cleaning-ne : Phase.cleaning ≢ Phase.deploying
cleaning-ne e = cc

cleaned-ne : Phase.cleaned ≢ Phase.deploying
cleaned-ne e = cc

module _ (r : Reconciler) (server : Server r.client) (c : Bool) where
  pub handle_initialization-Keeps : Keeps r server c (handle_initialization r)
  unfolding handle_initialization
  handle_initialization-Keeps =
      search (keeps, set_progressing_condition-Keeps, provisioning-ne) depth 8

  scale_to_match-Keeps :
      (namespace : String) (n : ℕ) (ds : List Deployment)
      → Keeps r server c (scale_to_match r namespace n ds)
  unfolding scale_to_match
  scale_to_match-Keeps namespace n [] = search keeps
  scale_to_match-Keeps namespace n (d ∷ ds) = search (keeps, Quiet→Keeps, scale_deployments-Quiet)

  pub handle_running-Keeps : Keeps r server c (handle_running r)
  unfolding handle_running
  handle_running-Keeps = search (keeps, scale_to_match-Keeps) depth 8

  module _ (parses : ParsesLiterals r) where
    final_backup-Keeps : Keeps r server c (final_backup r)
    unfolding final_backup
    final_backup-Keeps = search (keeps, Quiet→Keeps, create_backup-Quiet, parses)

module _ (r : Reconciler) (server : Server r.client) (parses : ParsesLiterals r) where
  remove_finalizer-Keeps :
      Keeps r server false
        (modify λ y. record y { finalizers = remove_string y.finalizers finalizer_name })
  remove_finalizer-Keeps = Keeps-modify r server false _ (λ x. refl) (λ x. SameStatus-refl x.status)

  finish_cleaning-Keeps : Keeps r server false (finish_cleaning r)
  unfolding finish_cleaning
  finish_cleaning-Keeps =
      search (keeps, save_stack-Keeps, remove_finalizer-Keeps, cleaned-ne) depth 12

  fail_cleaning-Keeps :
      (message : String) (e : Error) → Keeps r server false (fail_cleaning r message e)
  unfolding fail_cleaning
  fail_cleaning-Keeps message e = search (keeps, update_status_with_error-Keeps)

  pub handle_cleaning-Keeps : Keeps r server false (handle_cleaning r)
  unfolding handle_cleaning
  handle_cleaning-Keeps =
      let backup = final_backup-Keeps r server false parses in
      let all =
        Quiet→Keeps r server false (cleanup_all_resources r) (cleanup_all_resources-Quiet r) in
      let mongo_db = Quiet→Keeps r server false (cleanup_mongo_db r) (cleanup_mongo_db-Quiet r) in
      let nats = Quiet→Keeps r server false (cleanup_nats r) (cleanup_nats-Quiet r) in
      let redis = Quiet→Keeps r server false (cleanup_redis r) (cleanup_redis-Quiet r) in
      search (keeps, backup, all, mongo_db, nats, redis, fail_cleaning-Keeps, finish_cleaning-Keeps)
        depth 12

  pub handle_deletion-Keeps : Keeps r server false (handle_deletion r)
  unfolding handle_deletion
  handle_deletion-Keeps = search (keeps, handle_cleaning-Keeps, cleaning-ne) depth 8
