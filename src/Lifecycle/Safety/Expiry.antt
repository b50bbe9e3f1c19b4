-- ===== src/Lifecycle/Safety/Expiry.antt =====
-- Safety of `handleStackExpiration` and `handleInactiveStack`.
use pishop_operator.Base.{String, ◌≡◌, ◌≢◌, refl, Bool, true, false, Option, none, some, is_some}
use pishop_operator.Api.{Phase}
use pishop_operator.Client.{State, Go, modify}
use pishop_operator.Client.Rules.{Ends, Quiet, quiet}
use pishop_operator.Reconciler.{Reconciler}
use pishop_operator.Cluster.Quiet.{scale_deployments-Quiet}
use pishop_operator.Stack.Secrets.{deref}
use pishop_operator.Lifecycle.Expiry.{
  is_stack_expired, handle_stack_expiration, inactive_message, handle_inactive_stack,
}
use pishop_operator.Lifecycle.Safety.Invariant.{Server, Safe}
use pishop_operator.Lifecycle.Safety.Keeps.{
  Keeps, keeps, Quiet→Keeps, Keeps-set_message, Safe-forget, Safe-write, save_stack-Keeps,
  update_status_with_error-Keeps,
}

inactive-ne : Phase.inactive ≢ Phase.deploying
inactive-ne e = cc

pub is_stack_expired-Quiet : (r : Reconciler) → Quiet (is_stack_expired r)
unfolding is_stack_expired
is_stack_expired-Quiet r = search quiet

-- A pointer that is there may be followed.
Keeps-deref {ℓ} :
    (r : Reconciler) (server : Server r.client) (c : Bool) {A : Type 0} {B : Type ℓ} (o : Option A)
    (k : A → Go B)
    → is_some o ≡ true
    → ((a : A) → Keeps r server c (k a))
    → Keeps r server c (deref o k)
Keeps-deref r server c none k e h = cc
Keeps-deref r server c (some a) k e h = h a

module _ (r : Reconciler) (server : Server r.client) where
  inactive_message-Keeps : (is_expired : Bool) → Keeps r server true (inactive_message r is_expired)
  unfolding inactive_message
  inactive_message-Keeps false s h = Keeps-set_message r server true _ s h
  inactive_message-Keeps true s h =
      Keeps-deref r server true s.stack.status.created_at _ (h.created refl) (search keeps) s h

  enter_inactive-Keeps :
      Keeps r server true
        (modify λ y. record y { status = record (y.status) { phase = Phase.inactive } })
  enter_inactive-Keeps s h =
      Safe-write r server true s _ refl
        (record { deploying_ready = λ d. absurd (inactive-ne d); timed = h.sound.timed }) h.created
        h

  pub handle_inactive_stack-Keeps : Keeps r server true (handle_inactive_stack r)
  unfolding handle_inactive_stack
  handle_inactive_stack-Keeps =
      let expired = Quiet→Keeps r server true (is_stack_expired r) (is_stack_expired-Quiet r) in
      let scaled = λ (namespace : String).
        Quiet→Keeps r server true _ (scale_deployments-Quiet r namespace 0) in
      search
        (
          keeps, expired, scaled, inactive_message-Keeps, enter_inactive-Keeps,
          update_status_with_error-Keeps,
        )
        depth 12

  deactivate-Keeps :
      Keeps r server false (modify λ y. record y { spec = record (y.spec) { active = false } })
  deactivate-Keeps s h = record {
    sound = h.sound;
    stored_sound = h.stored_sound;
    limits = h.limits;
    created = h.created;
  }

  pub handle_stack_expiration-Ends :
      (s : State)
      → Safe server r true s
      → Ends (λ _ t. Safe server r false t) (handle_stack_expiration r s)
  unfolding handle_stack_expiration
  handle_stack_expiration-Ends s h =
      Keeps-deref r server false s.stack.status.last_active_at _ (h.sound.timed (h.created refl))
        (search (keeps, save_stack-Keeps, deactivate-Keeps)) s (Safe-forget r server true s h)
