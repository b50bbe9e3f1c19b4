-- ===== src/Cluster.antt =====
-- Objects in the cluster: `CreateOrUpdate` and `createNamespace` of
-- controllers/stack_provisioning.go, `scaleDeployments`, `shouldRolloutDeployments` and
-- `rolloutDeployments` of controllers/prstack_controller.go.
pub mod Quiet
pub mod Scaling
pub mod Rollout
use pishop_operator.Base.{
  ℕ, String, List, ◌∷◌, [], Option, none, some, Bool, true, false, not, concat, if◌then◌else◌,
  str_eq, ◌==◌,
}
use pishop_operator.Kube.{Entries, Deployment, Kind, Object}
use pishop_operator.Api.{PrStack}
use pishop_operator.Client.{
  maybe, is_not_found, is_already_exists, Error, Reason, Call, Go, ◌>>=◌, pure, crash, attempt,
  record_call, get_object, wrap, errorf,
}
use pishop_operator.Reconciler.{Reconciler, call, namespace_of, restart_annotation}

-- `m[key] = value` on a map.
unfoldable pub put_entry : String → String → Entries → Entries
put_entry k v [] = (k, v) ∷ []
put_entry k v ((j, w) ∷ m) = if str_eq j k then (k, v) ∷ m else (j, w) ∷ put_entry k v m

-- `m[key]`, where the key is there.
unfoldable pub find_entry : String → Entries → Option String
find_entry k [] = none
find_entry k ((j, v) ∷ m) = if str_eq j k then some v else find_entry k m

abbrev pub has_replicas : ℕ → Option ℕ → Bool
has_replicas n none = false
has_replicas n (some m) = m == n

-- The pod template with its restart annotation set.
abbrev pub with_restart : String → String → Deployment → Deployment
with_restart key time d = record d {
  template = record (d.template) { annotations = put_entry key time d.template.annotations };
}

unfoldable pub should_rollout_deployments : PrStack → Bool
should_rollout_deployments x = elim (x.spec.deployed_at) [
  | none ↦ false
  | some d ↦ elim (x.status.last_deployed_at) [ none ↦ true | some t ↦ not (d == t) ]
]

module _ (r : Reconciler) where
  unfoldable pub create_or_update : Object → Go (Option Error)
  create_or_update o =
      attempt (call r (Call.create o))
        (λ e. if is_already_exists e then call r (Call.update o) else pure (some e)) (pure none)

  unfoldable pub create_namespace : String → Go (Option Error)
  create_namespace name =
      attempt (call r (Call.get Kind.namespace_kind "" name))
        (λ e.
          if is_not_found e then call r (Call.create (Object.namespace name)) else pure (some e))
        (pure none)

  -- The loop of `scaleDeployments`: those that have the number already are passed over.
  unfoldable pub scale_each : ℕ → List Deployment → Go (Option Error)
  scale_each replicas [] = pure none
  scale_each replicas (d ∷ ds) =
      let rest = scale_each replicas ds in
      if has_replicas replicas d.replicas
      then rest
      else attempt
          (call r (Call.update (Object.deployment (record d { replicas = some replicas }))))
          (λ e.
            pure
              (some (errorf (concat ("failed to scale deployment " ∷ d.meta.name ∷ ": " ∷ [])) e)))
          rest

  unfoldable pub scale_deployments : String → ℕ → Go (Option Error)
  scale_deployments namespace replicas = do
    l ← record_call (Call.list_deployments namespace)
    maybe (r.client.error l) (scale_each replicas (r.client.deployments l))
        (λ e. pure (some (errorf "failed to list deployments: " e)))

  unfoldable pub rollout_each : String → String → List Deployment → Go (Option Error)
  rollout_each key time [] = pure none
  rollout_each key time (d ∷ ds) =
      let rest = rollout_each key time ds in
      attempt (call r (Call.update (Object.deployment (with_restart key time d))))
        (λ e.
          pure (some (wrap (concat ("failed to rollout deployment " ∷ d.meta.name ∷ ": " ∷ [])) e)))
        rest

  -- The time is read inside the loop: without one the method panics if there is a deployment.
  unfoldable pub rollout_items : Option ℕ → List Deployment → Go (Option Error)
  unfolding rollout_each
  rollout_items deployed_at [] = pure none
  rollout_items none (d ∷ ds) = crash
  rollout_items (some t) (d ∷ ds) =
      rollout_each restart_annotation (r.client.rfc3339_text t) (d ∷ ds)

  -- `rolloutDeployments` in a namespace, with the time that the specification gives.
  unfoldable pub rollout_in : String → Option ℕ → Go (Option Error)
  unfolding rollout_items
  rollout_in namespace deployed_at = do
    l ← record_call (Call.list_deployments namespace)
    maybe (r.client.error l) (rollout_items deployed_at (r.client.deployments l))
        (λ e. pure (some (wrap "failed to list deployments: " e)))

  unfoldable pub rollout_deployments : Go (Option Error)
  rollout_deployments = do x ← get_object; rollout_in (namespace_of x) x.spec.deployed_at
