-- ===== src/Lifecycle/Phases/Resources.antt =====
-- The phase through the methods that create resources, panics included.
use pishop_operator.Base.{ℕ, String, List, ◌∷◌, [], Option, none, some}
use pishop_operator.Kube.{Deployment}
use pishop_operator.Api.{PrStack, Phase, ResourceLimits}
use pishop_operator.Client.{Call, Error, Go, ◌>>=◌, pure, attempt, perform}
use pishop_operator.Client.Rules.{IsSilent}
use pishop_operator.Reconciler.{Reconciler, restart_annotation}
use pishop_operator.Cluster.{rollout_each, rollout_items, rollout_in, rollout_deployments}
use pishop_operator.Cluster.Quiet.{create_or_update-Quiet}
use pishop_operator.Provisioning.Queues.{create_nats_resources, create_redis_resources}
use pishop_operator.Stack.Secrets.{
  redis_config, nats_config, mongo_db_config, create_mongo_db_resources,
}
use pishop_operator.Stack.Workload.{
  limit_entry, limits_of, get_resource_requirements, create_objects, create_service_deployment,
}
use pishop_operator.Backup.{JobSpec, build_job, create_backup_job, create_backup}
use pishop_operator.Lifecycle.Deploy.{report, deploy_each}
use pishop_operator.Lifecycle.Cleaning.{final_backup}
use pishop_operator.Lifecycle.Safety.Invariant.{Server}
use pishop_operator.Lifecycle.Phases.Rules.{
  Within, Within-attempt, Within-call, Within-pure, within, Quiet-Within, Within-must_parse,
}

module _ (r : Reconciler) (server : Server r.client) (Allowed : Phase → Type 0) where
  ruleset resources = (within, Within-must_parse, Quiet-Within, create_or_update-Quiet)

  -- Two methods, and a value of their results.
  and_then-Within :
      {A B : Type 0} {C : Type 0} (m : Go A) (rest : Go B) (f : A → B → C)
      → Within r server Allowed m
      → Within r server Allowed rest
      → Within r server Allowed (m >>= λ a. rest >>= λ b. pure (f a b))
  and_then-Within m rest f h k = search (within, h, k)

  -- A silent call, whose error is returned, and the rest.
  or_fail-Within :
      (c : Call)
      → IsSilent c
      → (f : Error → Error) (rest : Go (Option Error)) → Within r server Allowed rest
      → Within r server Allowed (attempt (perform r.client c) (λ e. pure (some (f e))) rest)
  or_fail-Within c silent f rest h =
      Within-attempt r server Allowed (perform r.client c) _ rest
        (Within-call r server Allowed c silent) (λ e. Within-pure r server Allowed (some (f e))) h

  limits_of-Within : (o : Option ResourceLimits) → Within r server Allowed (limits_of r o)
  unfolding limits_of limit_entry
  limits_of-Within none = search resources depth 10
  limits_of-Within (some l) = search resources depth 10

  get_resource_requirements-Within :
      (x : PrStack) → Within r server Allowed (get_resource_requirements r x)
  unfolding get_resource_requirements
  get_resource_requirements-Within x = search (resources, limits_of-Within) depth 10

  create_objects-Within :
      (x : PrStack) (namespace name : String)
      → Within r server Allowed (create_objects r x namespace name)
  unfolding create_objects
  create_objects-Within x namespace name =
      search (resources, get_resource_requirements-Within) depth 10

  create_service_deployment-Within :
      (namespace name : String)
      → Within r server Allowed (create_service_deployment r namespace name)
  unfolding create_service_deployment
  create_service_deployment-Within namespace name = search (resources, create_objects-Within)

  pub deploy_each-Within :
      (namespace : String) (names : List String)
      → Within r server Allowed (deploy_each r namespace names)
  unfolding deploy_each
  deploy_each-Within namespace [] = search within
  deploy_each-Within namespace (name ∷ names) =
      and_then-Within _ _ (report name) (create_service_deployment-Within namespace name)
        (deploy_each-Within namespace names)

  pub create_mongo_db_resources-Within :
      (namespace : String) → Within r server Allowed (create_mongo_db_resources r namespace)
  unfolding create_mongo_db_resources mongo_db_config nats_config redis_config
  create_mongo_db_resources-Within namespace = search resources depth 20

  pub create_nats_resources-Within :
      (namespace : String) → Within r server Allowed (create_nats_resources r namespace)
  unfolding create_nats_resources
  create_nats_resources-Within namespace = search resources depth 14

  pub create_redis_resources-Within :
      (namespace : String) → Within r server Allowed (create_redis_resources r namespace)
  unfolding create_redis_resources
  create_redis_resources-Within namespace = search resources depth 14

  build_job-Within :
      (prefix app script number : String) (spec : JobSpec)
      → Within r server Allowed (build_job r prefix app script number spec)
  unfolding build_job
  build_job-Within prefix app script number spec = search resources depth 14

  pub final_backup-Within : Within r server Allowed (final_backup r)
  unfolding final_backup create_backup create_backup_job
  final_backup-Within = search (resources, build_job-Within) depth 14

  rollout_each-Within :
      (key time : String) (ds : List Deployment)
      → Within r server Allowed (rollout_each r key time ds)
  unfolding rollout_each
  rollout_each-Within key time [] = search within
  rollout_each-Within key time (d ∷ ds) = or_fail-Within _ tt _ _ (rollout_each-Within key time ds)

  rollout_items-Within :
      (o : Option ℕ) (ds : List Deployment) → Within r server Allowed (rollout_items r o ds)
  unfolding rollout_items
  rollout_items-Within o [] = search within
  rollout_items-Within none (d ∷ ds) = search within
  rollout_items-Within (some t) (d ∷ ds) =
      rollout_each-Within restart_annotation (r.client.rfc3339_text t) (d ∷ ds)

  pub rollout_deployments-Within : Within r server Allowed (rollout_deployments r)
  unfolding rollout_deployments rollout_in
  rollout_deployments-Within = search (within, rollout_items-Within) depth 10
