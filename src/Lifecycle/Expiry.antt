-- ===== src/Lifecycle/Expiry.antt =====
-- Expiration and inactivity: `isStackExpired`, `handleStackExpiration` and `handleInactiveStack`.
use pishop_operator.Base.{
  ℕ, ℤ, pos, negsuc, leb, String, ◌∷◌, [], ◌+◌, ◌-◌, Option, none, some, Bool, true, false, concat,
  ltb, if◌then◌else◌,
}
use pishop_operator.Api.{PrStack, Phase}
use pishop_operator.Client.{maybe, Go, ◌>>=◌, ◌>>◌, pure, attempt, get_object, modify}
use pishop_operator.Reconciler.{
  Reconciler, Reply, no_result, after, stack_expiration_time, requeue_interval_medium,
  requeue_interval_long, now, emit, save_status, save_stack, set_message, namespace_of,
}
use pishop_operator.Conditions.{update_status_with_error}
use pishop_operator.Cluster.{scale_deployments}
use pishop_operator.Stack.Secrets.{deref}

-- The time that the age is counted from.
unfoldable pub active_since : PrStack → Option ℕ
active_since x = elim (x.status.last_active_at) [ none ↦ x.status.created_at | some t ↦ some t ]

-- `time.Since(t) > StackExpirationTime`
unfoldable pub is_past : ℕ → ℕ → Bool
is_past time since = ltb (since + stack_expiration_time) time

-- `time.Since(t)` at the time n, which is negative where t is still to come.
unfoldable pub elapsed : ℕ → ℕ → ℤ
elapsed n t = if leb t n then pos (n - t) else negsuc (t - n - 1)

module _ (r : Reconciler) where
  -- The clock is read only where there is a time to count from.
  unfoldable pub is_stack_expired : Go Bool
  is_stack_expired = do
    x ← get_object
    maybe (active_since x) (pure false) (λ t. now r >>= λ n. pure (is_past n t))

  unfoldable pub handle_stack_expiration : Go Reply
  handle_stack_expiration = do
    x ← get_object
    deref x.status.last_active_at λ t. do
      n ← now r
      emit r true "StackExpired" (
          concat (
            "PR #"
            ∷ x.spec.pr_number
            ∷ " stack expired (age: "
            ∷ r.client.age_text (elapsed n t)
            ∷ "), deactivating"
            ∷ []))
      modify λ y. record y { spec = record (y.spec) { active = false } }
      attempt (save_stack r) (λ e. pure (no_result, some e))
          (pure (record { requeue = true; requeue_after = 0 }, none))

  -- The message of an inactive stack, with its age since its creation if it expired.
  unfoldable pub inactive_message : Bool → Go (Unit {0})
  inactive_message false = set_message "Stack is inactive - all deployments scaled to 0"
  inactive_message true = do
    x ← get_object
    deref x.status.created_at λ t. do
      n ← now r
      set_message (
          concat (
            "Stack expired (age: "
            ∷ r.client.age_text (elapsed n t)
            ∷ ") - all deployments scaled to 0"
            ∷ []))

  unfoldable pub handle_inactive_stack : Go Reply
  unfolding inactive_message
  handle_inactive_stack = do
    x ← get_object
    is_expired ← is_stack_expired
    let reason : String = if is_expired then "expired (older than 1 hour)" else "marked inactive"
    emit r false "ScalingDown" (
        concat
          ("PR #" ∷ x.spec.pr_number ∷ " " ∷ reason ∷ ", scaling down all deployments to 0" ∷ []))
    attempt (scale_deployments r (namespace_of x) 0)
        (λ e. do
          emit r true "ScaleDownFailed" (concat ("Failed to scale down: " ∷ e.text ∷ []))
          update_status_with_error r "Failed to scale down" e
          pure (after requeue_interval_medium, some e))
        do
          modify λ y. record y { status = record (y.status) { phase = Phase.inactive } }
          inactive_message is_expired
          attempt (save_status r) (λ e. pure (no_result, some e))
              do
                y ← get_object
                emit r false "Inactive"
                    (concat ("PR #" ∷ y.spec.pr_number ∷ " stack scaled down to 0 replicas" ∷ []))
                pure (after requeue_interval_long, none)
