-- ===== src/Conditions.antt =====
-- The conditions of a PRStack's status: `setCondition`, `setReadyCondition`,
-- `setProgressingCondition`, `updateStatusWithError` and `recordProvisioningError` of
-- controllers/prstack_controller.go.
pub mod Transition
use pishop_operator.Base.{
  String, List, ◌∷◌, [], Option, none, some, Bool, true, not, ◌||◌, concat, if◌then◌else◌, str_eq,
}
use pishop_operator.Api.{Phase, Condition}
use pishop_operator.Client.{
  maybe, is_not_found, is_already_exists, Error, Go, ◌>>=◌, ◌>>◌, pure, get_object, modify,
}
use pishop_operator.Reconciler.{
  Reconciler, Reply, now, emit, save_status, set_phase, after, requeue_interval_medium,
}

-- The existing condition that the loop finds.
unfoldable pub find_condition : String → List Condition → Option Condition
find_condition type [] = none
find_condition type (c ∷ cs) = if str_eq c.type type then some c else find_condition type cs

-- `Conditions[i] = condition` at the place found, or `append`.
unfoldable pub put_condition : Condition → List Condition → List Condition
put_condition c [] = c ∷ []
put_condition c (d ∷ ds) = if str_eq d.type c.type then c ∷ ds else d ∷ put_condition c ds

abbrev pub is_changed : Condition → Condition → Bool
is_changed old new = not (str_eq old.status new.status) || not (str_eq old.reason new.reason)

abbrev pub store_condition : Condition → Go (Unit {0})
store_condition c = modify λ x. record x {
  status = record (x.status) { conditions = put_condition c x.status.conditions };
}

module _ (r : Reconciler) where
  unfoldable pub set_condition : Condition → Go (Unit {0})
  set_condition c = do
    x ← get_object
    maybe (find_condition c.type x.status.conditions) (store_condition c) (λ old.
        if is_changed old c
        then (now r >>= λ t. store_condition (record c { last_transition_time = t }))
        else store_condition (record c { last_transition_time = old.last_transition_time }))

  -- `r.setCondition` of a literal whose time is `metav1.Now()`.
  unfoldable pub set_condition_now : String → String → String → String → Go (Unit {0})
  set_condition_now type status reason message = do
    t ← now r
    set_condition (record {
      type = type;
      status = status;
      reason = reason;
      message = message;
      last_transition_time = t;
    })

  unfoldable pub set_ready_condition : String → String → Go (Unit {0})
  set_ready_condition reason message = do
    set_condition_now "Ready" "True" reason message
    set_condition_now "Degraded" "False" "Healthy" "Stack is operating normally"

  unfoldable pub set_progressing_condition : String → String → Go (Unit {0})
  set_progressing_condition reason message = set_condition_now "Progressing" "True" reason message

  -- The status update's own error is only logged.
  unfoldable pub update_status_with_error : String → Error → Go (Unit {0})
  update_status_with_error message e = do
    let text = concat (message ∷ ": " ∷ e.text ∷ [])
    set_phase Phase.failed text
    set_condition_now "Ready" "False" "Error" text
    set_condition_now "Degraded" "True" "ReconciliationFailed" text
    save_status r
    pure tt

  unfoldable pub record_provisioning_error : String → Error → Go Reply
  record_provisioning_error component e = do
    emit r true "ProvisioningFailed" (concat (component ∷ " provisioning failed: " ∷ e.text ∷ []))
    update_status_with_error (concat (component ∷ " provisioning failed" ∷ [])) e
    pure (after requeue_interval_medium, some e)
