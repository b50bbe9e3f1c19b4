-- ===== src/Lifecycle/Main.antt =====
-- `Reconcile` and `reconcileByPhase`.
use pishop_operator.Base.{
  ℕ, ◌∷◌, [], ◌++◌, Option, none, some, Bool, true, false, not, ◌&&◌, ◌||◌, concat, if◌then◌else◌,
}
use pishop_operator.Api.{PrStack, Phase}
use pishop_operator.Client.{
  maybe, is_not_found, Error, Call, Go, ◌>>=◌, ◌>>◌, pure, attempt, record_call, get_object,
  put_object, modify,
}
use pishop_operator.Reconciler.{
  Reconciler, Reply, no_result, after, requeue_interval_medium, requeue_interval_long, now, emit,
  save_status, save_stack, set_message, finalizer_name,
}
use pishop_operator.Cluster.{should_rollout_deployments, rollout_deployments}
use pishop_operator.Lifecycle.Expiry.{
  is_stack_expired, handle_stack_expiration, handle_inactive_stack,
}
use pishop_operator.Lifecycle.Provision.{handle_initialization, handle_provisioning}
use pishop_operator.Lifecycle.Deploy.{handle_deployment}
use pishop_operator.Lifecycle.Running.{handle_running}
use pishop_operator.Lifecycle.Cleaning.{contains_string, handle_cleaning, handle_deletion}

abbrev pub is_inactive : Phase → Bool
is_inactive Phase.inactive = true
is_inactive _ = false

-- `if err := m; err != nil { return ctrl.Result{}, err }`
abbrev pub or_return : Go (Option Error) → Go Reply → Go Reply
or_return m rest = attempt m (λ e. pure (no_result, some e)) rest

abbrev pub set_active_at : ℕ → PrStack → PrStack
set_active_at t x = record x { status = record (x.status) { last_active_at = some t } }

abbrev pub set_created_at : ℕ → PrStack → PrStack
set_created_at t x = record x {
  status = record (x.status) { created_at = some t; last_active_at = some t };
}

module _ (r : Reconciler) where
  unfoldable pub reconcile_inactive : Go Reply
  reconcile_inactive = do
    x ← get_object
    emit r false "Activating"
        (concat ("PR #" ∷ x.spec.pr_number ∷ " stack becoming active, scaling up services" ∷ []))
    modify λ y. record y { status = record (y.status) { phase = Phase.initialization } }
    or_return (save_status r) (handle_initialization r)

  unfoldable pub by_phase : Phase → Go Reply
  unfolding reconcile_inactive
  by_phase Phase.initialization = handle_initialization r
  by_phase Phase.inactive = reconcile_inactive
  by_phase Phase.provisioning = handle_provisioning r
  by_phase Phase.deploying = handle_deployment r
  by_phase Phase.running = handle_running r
  by_phase Phase.degraded = handle_running r
  by_phase Phase.failed = pure (after requeue_interval_long, none)
  by_phase Phase.cleaning = handle_cleaning r
  by_phase Phase.cleaned = pure (no_result, none)
  by_phase (Phase.other _) = pure (no_result, none)

  unfoldable pub reconcile_by_phase : Go Reply
  reconcile_by_phase = do x ← get_object; by_phase x.status.phase

  -- What follows a rollout that succeeded.
  unfoldable pub finish_rollout : Go Reply
  finish_rollout = do
    x ← get_object
    emit r false "RolloutTriggered"
        (concat ("PR #" ∷ x.spec.pr_number ∷ " deployments rolled out successfully" ∷ []))
    modify λ y. record y { status = record (y.status) { last_deployed_at = y.spec.deployed_at } }
    or_return (save_status r) reconcile_by_phase

  -- The rollout, where one is asked for, and then the phase.
  unfoldable pub reconcile_active : Go Reply
  reconcile_active = do
    x ← get_object
    if should_rollout_deployments x
        then attempt (rollout_deployments r)
            (λ e. do
              emit r true "RolloutFailed" (concat ("Failed to rollout deployments: " ∷ e.text ∷ []))
              set_message (concat ("Rollout failed: " ∷ e.text ∷ []))
              save_status r
              pure (after requeue_interval_medium, some e))
            finish_rollout
        else reconcile_by_phase

  -- From the second test of the expiration on.
  unfoldable pub reconcile_settled : Bool → Go Reply
  reconcile_settled was_reactivated = do
    x ← get_object
    expired ← if was_reactivated then pure false else is_stack_expired r
    if expired && x.spec.active
        then handle_stack_expiration r
        else if not x.spec.active
        then handle_inactive_stack r
        else reconcile_active

  -- Reactivation: a stack that is active, and was inactive or has expired, counts as active from now.
  unfoldable pub reconcile_timed : ℕ → Go Reply
  reconcile_timed time = do
    expired ← is_stack_expired r
    x ← get_object
    if x.spec.active && (is_inactive x.status.phase || expired)
        then modify (set_active_at time) >> or_return (save_status r) (reconcile_settled true)
        else reconcile_settled false

  -- The time of creation, where it is missing.
  unfoldable pub reconcile_created : Go Reply
  reconcile_created = do
    time ← now r
    x ← get_object
    maybe x.status.created_at
        (modify (set_created_at time) >> or_return (save_status r) (reconcile_timed time))
        (λ _. reconcile_timed time)

  -- The finalizer, where it is missing.
  unfoldable pub reconcile_live : Go Reply
  reconcile_live = do
    x ← get_object
    if contains_string x.finalizers finalizer_name
        then reconcile_created
        else modify (λ y. record y { finalizers = y.finalizers ++ finalizer_name ∷ [] })
          >> or_return (save_stack r) reconcile_created

  unfoldable pub reconcile_fetched : Go Reply
  reconcile_fetched = do
    x ← get_object
    maybe x.deletion_timestamp (reconcile_live) (λ _. handle_deletion r)

  unfoldable pub reconcile : Go Reply
  unfolding reconcile_fetched reconcile_live reconcile_created reconcile_timed reconcile_settled
      reconcile_active finish_rollout reconcile_by_phase by_phase
  reconcile = do
    l ← record_call Call.get_stack
    maybe (r.client.error l) (put_object (r.client.stack l) >> reconcile_fetched)
        (λ e. if is_not_found e then pure (no_result, none) else pure (no_result, some e))
