-- ===== src/Lifecycle/Running.antt =====
-- A stack that runs: `handleRunning`.
use pishop_operator.Base.{String, List, ◌∷◌, [], none, Bool, true, false, if◌then◌else◌, str_eq, ℕ}
use pishop_operator.Kube.{Deployment}
use pishop_operator.Api.{ServiceStatus}
use pishop_operator.Client.{maybe, Call, Go, ◌>>=◌, ◌>>◌, pure, record_call, get_object}
use pishop_operator.Reconciler.{
  Reconciler, Reply, after, requeue_interval_long, save_status, set_message, namespace_of,
}
use pishop_operator.Cluster.{has_replicas, scale_deployments}
use pishop_operator.Stack.Workload.{desired_replicas}

unfoldable pub all_healthy : List ServiceStatus → Bool
all_healthy [] = true
all_healthy (s ∷ ss) = if str_eq s.status "Running" then all_healthy ss else false

module _ (r : Reconciler) where
  -- Only the first deployment's replicas are compared; an error of the scaling is only logged.
  unfoldable pub scale_to_match : String → ℕ → List Deployment → Go (Unit {0})
  scale_to_match namespace desired [] = pure tt
  scale_to_match namespace desired (d ∷ ds) =
      if has_replicas desired d.replicas
      then pure tt
      else scale_deployments r namespace desired >> pure tt

  unfoldable pub match_replicas : Go (Unit {0})
  unfolding scale_to_match
  match_replicas = do
    x ← get_object
    l ← record_call (Call.list_deployments (namespace_of x))
    maybe (r.client.error l)
        (scale_to_match (namespace_of x) (desired_replicas x) (r.client.deployments l))
        (λ e. pure tt)

  unfoldable pub report_health : Go (Unit {0})
  report_health = do
    x ← get_object
    if all_healthy x.status.services
        then pure tt
        else set_message "Some services are not healthy" >> (save_status r >> pure tt)

  unfoldable pub handle_running : Go Reply
  unfolding match_replicas report_health
  handle_running = do match_replicas; report_health; pure (after requeue_interval_long, none)
