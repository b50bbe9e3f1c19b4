-- ===== src/Lifecycle/Progress/Resources.antt =====
-- The methods that create a stack's objects, in a world without errors.
use pishop_operator.Base.{ℕ, String, List, ◌∷◌, [], Option, none, some, true, ◌≡◌, refl, is_some}
use pishop_operator.Kube.{Deployment, Object}
use pishop_operator.Api.{PrStack, ResourceLimits}
use pishop_operator.Client.{Call, State, pure, perform, errorf}
use pishop_operator.Reconciler.{Reconciler, restart_annotation}
use pishop_operator.Cluster.{
  create_or_update, rollout_each, rollout_items, rollout_in, rollout_deployments,
}
use pishop_operator.Stack.Secrets.{
  create_mongo_db_secret, redis_config, nats_config, mongo_db_config, create_mongo_db_resources,
  create_registry_secret,
}
use pishop_operator.Stack.Ingress.{or_default}
use pishop_operator.Stack.Storage.{
  config_or_default, create_claim, create_backup_pvc, ensure_backup_storage,
}
use pishop_operator.Stack.Workload.{
  limit_entry, limits_of, get_resource_requirements, create_objects, create_service_deployment,
}
use pishop_operator.Lifecycle.Deploy.{report, deploy_each}
use pishop_operator.Lifecycle.Progress.Rules.{
  IsFirm, Smooth-claim, Works, WhenDone, WhenDone-bind, Still, still, must_parse-Still, Smooth,
  Smooth-call, Smooth-reply, Smooth-none, Smooth-attempt, smooth, Smooth-fine, Leads-some, Leads,
  Smooth-Leads, NoError,
}
use pishop_operator.Lifecycle.Progress.Servers.{create_or_update-Smooth}

-- The size of the backups' storage that a PRStack asks for is a quantity.
abbrev pub HasStorage : Reconciler → PrStack → Type 0
HasStorage r x =
    r.client.parse_quantity
      (or_default (config_or_default x.spec.backup_config).storage_size "10Gi")
    ≡ none

module _ (r : Reconciler) (works : Works r) where
  call-Smooth : (c : Call) → IsFirm c → Smooth (perform r.client c)
  call-Smooth c firm = Smooth-call r works c firm

  object-Smooth : (o : Object) → Smooth (create_or_update r o)
  object-Smooth o = create_or_update-Smooth r works o

  ruleset objects = (smooth, call-Smooth, object-Smooth, tt)

  limits_of-Still : (o : Option ResourceLimits) → Still (limits_of r o)
  unfolding limits_of limit_entry
  limits_of-Still none = search (still, must_parse-Still) depth 10
  limits_of-Still (some l) = search (still, must_parse-Still) depth 10

  get_resource_requirements-Still : (x : PrStack) → Still (get_resource_requirements r x)
  unfolding get_resource_requirements
  get_resource_requirements-Still x = search (still, must_parse-Still, limits_of-Still) depth 10

  create_objects-Smooth :
      (x : PrStack) (namespace name : String) → Smooth (create_objects r x namespace name)
  unfolding create_objects
  create_objects-Smooth x namespace name =
      search (objects, get_resource_requirements-Still) depth 12

  pub create_service_deployment-Smooth :
      (namespace name : String) → Smooth (create_service_deployment r namespace name)
  unfolding create_service_deployment
  create_service_deployment-Smooth namespace name = search (objects, create_objects-Smooth)

  pub create_mongo_db_resources-Smooth :
      (namespace : String) → Smooth (create_mongo_db_resources r namespace)
  unfolding create_mongo_db_resources mongo_db_config nats_config redis_config
  create_mongo_db_resources-Smooth namespace = search objects depth 14

  pub create_registry_secret-Smooth :
      (namespace : String) → Smooth (create_registry_secret r namespace)
  unfolding create_registry_secret
  create_registry_secret-Smooth namespace = search (objects, Smooth-fine, works.encoded) depth 12

  -- The secret is written where the credentials are at hand.
  pub create_mongo_db_secret-NoError :
      (s : State)
      → is_some s.stack.status.mongo_db ≡ true
      → WhenDone NoError (create_mongo_db_secret r s)
  unfolding create_mongo_db_secret
  create_mongo_db_secret-NoError s h =
      (Leads-some NoError s.stack.status.mongo_db _ _ h λ m. Smooth-Leads _ (search objects)).run s

  create_claim-Smooth :
      (x : PrStack) (namespace : String) → HasStorage r x → Smooth (create_claim r x namespace)
  unfolding create_claim
  create_claim-Smooth x namespace h =
      let claimed = Smooth-claim r works in search (objects, Smooth-fine, h, claimed) depth 12

  pub ensure_backup_storage-NoError :
      (namespace : String) (s : State)
      → HasStorage r s.stack
      → WhenDone NoError (ensure_backup_storage r namespace s)
  unfolding ensure_backup_storage create_backup_pvc
  ensure_backup_storage-NoError namespace s h =
      let claimed = create_claim-Smooth s.stack namespace h in
      (Smooth-Leads _ (
          Smooth-attempt (create_claim r s.stack namespace)
            (λ e. pure (some (errorf "failed to create backup PVC: " e))) (pure none) claimed
            Smooth-none)).run
        s

  rollout_each-Smooth :
      (key time : String) (ds : List Deployment) → Smooth (rollout_each r key time ds)
  unfolding rollout_each
  rollout_each-Smooth key time [] = search objects
  rollout_each-Smooth key time (d ∷ ds) =
      Smooth-attempt _ _ _ (call-Smooth _ tt) (rollout_each-Smooth key time ds)

  rollout_items-Smooth : (t : Option ℕ) (ds : List Deployment) → Smooth (rollout_items r t ds)
  unfolding rollout_items
  rollout_items-Smooth t [] = search objects
  rollout_items-Smooth none (d ∷ ds) = record { run = λ s. tt }
  rollout_items-Smooth (some t) (d ∷ ds) =
      rollout_each-Smooth restart_annotation (r.client.rfc3339_text t) (d ∷ ds)

  rollout_in-Smooth : (namespace : String) (t : Option ℕ) → Smooth (rollout_in r namespace t)
  unfolding rollout_in
  rollout_in-Smooth namespace t =
      Smooth-reply r works _ _ _ tt λ l. rollout_items-Smooth t (r.client.deployments l)

  pub rollout_deployments-Smooth : Smooth (rollout_deployments r)
  unfolding rollout_deployments
  rollout_deployments-Smooth = search (objects, rollout_in-Smooth)

  -- No service fails.
  pub deploy_each-none :
      (namespace : String) (names : List String)
      → Leads (λ p t. p.1 ≡ 0) (deploy_each r namespace names)
  unfolding deploy_each report
  deploy_each-none namespace [] = record { run = λ s. refl }
  deploy_each-none namespace (name ∷ names) = record {
    run = λ s.
        WhenDone-bind NoError _ (create_service_deployment r namespace name) _ s
          ((Smooth-Leads _ (create_service_deployment-Smooth namespace name)).run s)
          λ o t e.
            WhenDone-bind (λ p _. p.1 ≡ 0) _ (deploy_each r namespace names) _ t
              ((deploy_each-none namespace names).run t) λ (statuses, failures) u f. rw e f;
  }
