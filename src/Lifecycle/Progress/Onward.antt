-- ===== src/Lifecycle/Progress/Onward.antt =====
-- `Reconcile` from the age of a stack on, in a world without errors.
use pishop_operator.Base.{
  ℕ, Option, none, some, Bool, true, false, not, ◌&&◌, ◌||◌, ◌≡◌, sym, ap, ◌∙◌, if◌then◌else◌,
}
use mathlib.Core.Path.{subst}
use pishop_operator.Api.{PrStack, Phase}
use pishop_operator.Client.{Error, State, Go, ◌>>=◌, pure, attempt, maybe}
use pishop_operator.Reconciler.{Reconciler, Reply, no_result, save_status}
use pishop_operator.Cluster.{should_rollout_deployments, rollout_deployments}
use pishop_operator.Stack.Ingress.{or_default}
use pishop_operator.Stack.Storage.{config_or_default}
use pishop_operator.Lifecycle.Expiry.{active_since, is_stack_expired, handle_inactive_stack}
use pishop_operator.Lifecycle.Dead.{reconcile_by_activity, reconcile_unexpired}
use pishop_operator.Lifecycle.Main.{
  is_inactive, or_return, reconcile_inactive, by_phase, reconcile_by_phase, finish_rollout,
  reconcile_active,
}
use pishop_operator.Lifecycle.Safety.Invariant.{Server}
use pishop_operator.Lifecycle.Progress.Rules.{
  Works, WhenDone, WhenDone-bind, WhenDone-mono, NoError, Still, Still-maybe, Still-pure, still,
  Smooth, Leads, Leads-get, Leads-bind, Leads-attempt,
}
use pishop_operator.Lifecycle.Progress.Resources.{HasStorage, rollout_deployments-Smooth}
use pishop_operator.Lifecycle.Progress.Deployment.{handle_deployment-Reaches}
use pishop_operator.Lifecycle.Progress.Handlers.{
  IsSaved, save_status-saves, Reaches, handle_initialization-Reaches, handle_provisioning-Reaches,
}

-- The phase that a reconciliation starts in, and the one that it leads to.
pub data Advance : Phase → Phase → Type 0 where
  begin : Advance Phase.initialization Phase.provisioning
  wake : Advance Phase.inactive Phase.provisioning
  provision : Advance Phase.provisioning Phase.deploying
  deploy : Advance Phase.deploying Phase.running

module _ (r : Reconciler) (server : Server r.client) (works : Works r) where
  save_status-NoError : Leads NoError (save_status r)
  save_status-NoError = record {
    run = λ s.
        WhenDone-mono (λ o t. (o ≡ none) × IsSaved r server works s.stack t) NoError
          (save_status r s) (save_status-saves r server works s) λ o t p. p.0;
  }

  reconcile_inactive-Reaches :
      Leads (Reaches r server works Phase.provisioning) (reconcile_inactive r)
  unfolding reconcile_inactive
  reconcile_inactive-Reaches =
      let start = handle_initialization-Reaches r server works in
      search (Leads-get, Leads-attempt, Leads-bind, save_status-NoError, start) depth 10

  by_phase-Reaches :
      {p q : Phase}
      → Advance p q
      → (s : State) → HasStorage r s.stack
      → WhenDone (Reaches r server works q) (by_phase r p s)
  unfolding by_phase
  by_phase-Reaches begin s h = (handle_initialization-Reaches r server works).run s
  by_phase-Reaches wake s h = reconcile_inactive-Reaches.run s
  by_phase-Reaches provision s h = (handle_provisioning-Reaches r server works).run s
  by_phase-Reaches deploy s h = handle_deployment-Reaches r server works s h

  module _ (p q : Phase) (advance : Advance p q) where
    -- The object at hand has the phase, is active and asks for a storage that is a quantity.
    pub record Hand (s : State) : Type 0 where
      pub held : s.stack.status.phase ≡ p
      pub active : s.stack.spec.active ≡ true
      pub storage : HasStorage r s.stack

    abbrev pub Onward : Go Reply → Type 0
    Onward m = (s : State) → Hand s → WhenDone (Reaches r server works q) (m s)

    Hand-same : (s t : State) → t.stack ≡ s.stack → Hand s → Hand t
    Hand-same s t e h = record {
      held = ap (λ (x : PrStack). x.status.phase) e ∙ h.held;
      active = ap (λ (x : PrStack). x.spec.active) e ∙ h.active;
      storage = subst (HasStorage r) (sym e) h.storage;
    }

    pub Onward-if :
        (b : Bool) (m k : Go Reply) (s : State)
        → WhenDone (Reaches r server works q) (m s)
        → WhenDone (Reaches r server works q) (k s)
        → WhenDone (Reaches r server works q) ((if b then m else k) s)
    Onward-if true m k s h h' = h
    Onward-if false m k s h h' = h'

    Onward-Still :
        {A : Type 0} (m : Go A) (f : A → Go Reply) (s : State)
        → Still m
        → Hand s
        → ((a : A) → Onward (f a))
        → WhenDone (Reaches r server works q) ((m >>= f) s)
    Onward-Still m f s still h k =
        WhenDone-bind (λ _ t. t.stack ≡ s.stack) (Reaches r server works q) m f s (still.run s)
          λ a t e. k a t (Hand-same s t e h)

    Onward-Smooth :
        (m : Go (Option Error)) (fail : Error → Go Reply) (rest : Go Reply) (s : State)
        → Smooth m
        → Hand s
        → Onward rest
        → WhenDone (Reaches r server works q) (attempt m fail rest s)
    Onward-Smooth m fail rest s smooth h k =
        WhenDone-bind (λ o t. (o ≡ none) × (t.stack ≡ s.stack)) (Reaches r server works q) m _ s
          (smooth.run s)
          λ o t (e, f).
            subst (λ o. WhenDone (Reaches r server works q) (maybe o rest fail t)) (sym e)
              (k t (Hand-same s t f h))

    pub save_status-Onward :
        (rest : Go Reply) → Onward rest → Onward (or_return (save_status r) rest)
    save_status-Onward rest k s h =
        WhenDone-bind (λ o t. (o ≡ none) × IsSaved r server works s.stack t)
          (Reaches r server works q) (save_status r) _ s (save_status-saves r server works s)
          λ o t (e, (there, spec, status)).
            subst
              (λ o.
                WhenDone (Reaches r server works q)
                  (maybe o rest (λ e. pure (no_result, some e)) t))
              (sym e)
              (k t (record {
                held = status.same_phase ∙ h.held;
                active = ap (λ x. x.active) spec ∙ h.active;
                storage =
                    subst
                      (λ x.
                        r.client.parse_quantity
                          (or_default (config_or_default x.backup_config).storage_size "10Gi")
                        ≡ none)
                      (sym spec) h.storage;
              }))

    reconcile_by_phase-Onward : Onward (reconcile_by_phase r)
    unfolding reconcile_by_phase
    reconcile_by_phase-Onward s h =
        subst (λ p. WhenDone (Reaches r server works q) (by_phase r p s)) (sym h.held)
          (by_phase-Reaches advance s h.storage)

    finish_rollout-Onward : Onward (finish_rollout r)
    unfolding finish_rollout
    finish_rollout-Onward s h =
        save_status-Onward (reconcile_by_phase r) reconcile_by_phase-Onward _
          (record { held = h.held; active = h.active; storage = h.storage })

    reconcile_active-Onward : Onward (reconcile_active r)
    unfolding reconcile_active
    reconcile_active-Onward s h =
        Onward-if (should_rollout_deployments s.stack) _ (reconcile_by_phase r) s
          (Onward-Smooth (rollout_deployments r) _ (finish_rollout r) s
            (rollout_deployments-Smooth r works) h finish_rollout-Onward)
          (reconcile_by_phase-Onward s h)

    is_stack_expired-Still : Still (is_stack_expired r)
    unfolding is_stack_expired
    is_stack_expired-Still = record {
      run =
          λ s. (Still-maybe (active_since s.stack) _ _ (Still-pure false) λ t. search still).run s;
    }

    by_activity-Onward : Onward (reconcile_by_activity r)
    by_activity-Onward s h =
        subst
          (λ b.
            WhenDone (Reaches r server works q)
              ((if not b then handle_inactive_stack r else reconcile_active r) s))
          (sym h.active) (reconcile_active-Onward s h)

    pub reconcile_unexpired-Onward : (time : ℕ) → Onward (reconcile_unexpired r time)
    unfolding reconcile_unexpired
    reconcile_unexpired-Onward time s h =
        Onward-Still (is_stack_expired r) _ s is_stack_expired-Still h λ b t k.
          Onward-if (t.stack.spec.active && (is_inactive t.stack.status.phase || b)) _ _ t
            (save_status-Onward (reconcile_by_activity r) by_activity-Onward _
              (record { held = k.held; active = k.active; storage = k.storage }))
            (Onward-Still (is_stack_expired r) _ t is_stack_expired-Still k λ _. by_activity-Onward)
