-- ===== src/Lifecycle/Safety/Reconcile.antt =====
-- Safety of `Reconcile` and `reconcileByPhase`.
use pishop_operator.Base.{
  ◌∷◌, [], ◌++◌, concat, ◌≡◌, ◌≢◌, refl, sym, ap, Bool, true, false, Option, none, some, is_some, ℕ,
  List, if◌then◌else◌,
}
use mathlib.Core.Path.{subst}
use pishop_operator.Api.{PrStack, Phase}
use pishop_operator.Client.{
  Error, Call, State, Go, ◌>>=◌, ◌>>◌, pure, modify, attempt, get_object, put_object, maybe,
  is_not_found, get_stack, read_clock,
}
use pishop_operator.Client.Rules.{
  Ends, Ends-bind, Ends-mono, Ends-attempt, Ends-if, Ends-maybe, here, more,
}
use pishop_operator.Reconciler.{
  Reconciler, Reply, finalizer_name, emit, set_message, save_status, after, requeue_interval_medium,
  no_result,
}
use pishop_operator.Cluster.{should_rollout_deployments, rollout_deployments}
use pishop_operator.Cluster.Quiet.{rollout_deployments-Quiet}
use pishop_operator.Provisioning.Quiet.{ParsesLiterals}
use pishop_operator.Stack.Quiet.{HasLimits}
use pishop_operator.Lifecycle.Expiry.{is_stack_expired, handle_stack_expiration}
use pishop_operator.Lifecycle.Deploy.{handle_deployment}
use pishop_operator.Lifecycle.Main.{
  or_return, set_active_at, set_created_at, reconcile_inactive, by_phase, reconcile_by_phase,
  finish_rollout, reconcile_active, reconcile_settled, reconcile_timed, reconcile_created,
  reconcile_live, reconcile_fetched, reconcile,
}
use pishop_operator.Lifecycle.Safety.Invariant.{WellFormed, Server, Safe, SameStatus-refl}
use pishop_operator.Lifecycle.Safety.Keeps.{
  Keeps, keeps, Quiet→Keeps, Quietly→Safe, Keeps-modify, Safe-write, Safe-forget, save_stack-Keeps,
}
use pishop_operator.Lifecycle.Safety.Handlers.{
  handle_initialization-Keeps, handle_running-Keeps, handle_cleaning-Keeps, handle_deletion-Keeps,
}
use pishop_operator.Lifecycle.Safety.Provisioning.{handle_provisioning-Keeps}
use pishop_operator.Lifecycle.Safety.Deployment.{handle_deployment-Keeps}
use pishop_operator.Lifecycle.Safety.Expiry.{
  is_stack_expired-Quiet, handle_inactive_stack-Keeps, handle_stack_expiration-Ends,
}

initialization-ne : Phase.initialization ≢ Phase.deploying
initialization-ne e = cc

module _ (r : Reconciler) (server : Server r.client) (parses : ParsesLiterals r) where
  -- From a safe state whose object has a time of creation the method ends in a safe state.
  record Settles {ℓ} {A : Type ℓ} (m : Go A) : Type 0 where
    run : (s : State) → Safe server r true s → Ends (λ _ t. Safe server r false t) (m s)

  Settles-Keeps {ℓ} : {A : Type ℓ} (m : Go A) → Keeps r server true m → Settles m
  Settles-Keeps m k = record {
    run = λ s h. Ends-mono _ _ (m s) (k s h) λ a t p. Safe-forget r server true t p;
  }

  Settles-forget {ℓ} : {A : Type ℓ} (m : Go A) → Keeps r server false m → Settles m
  Settles-forget m k = record { run = λ s h. k s (Safe-forget r server true s h) }

  Settles-bind {ℓ κ} :
      {A : Type ℓ} {B : Type κ} (m : Go A) (f : A → Go B)
      → Keeps r server true m
      → ((a : A) → Settles (f a))
      → Settles (m >>= f)
  Settles-bind m f h k = record {
    run = λ s safe. Ends-bind _ _ m f s (h s safe) λ a t p. (k a).run t p;
  }

  Settles-attempt :
      {B : Type 0} (m : Go (Option Error)) (fail : Error → Go B) (rest : Go B)
      → Keeps r server true m
      → ((e : Error) → Settles (fail e))
      → Settles rest
      → Settles (attempt m fail rest)
  Settles-attempt m fail rest h bad good =
      Settles-bind m _ h
        λ err. elim err as (λ o. Settles (maybe o rest fail)) [ none ↦ good | some e ↦ bad e ]

  Settles-pure {ℓ} : {A : Type ℓ} (a : A) → Settles (pure a)
  Settles-pure a = record { run = λ s h. Safe-forget r server true s h }

  Settles-if {ℓ} :
      {B : Type ℓ} (b : Bool) (m k : Go B) → Settles m → Settles k → Settles (if b then m else k)
  Settles-if true m k h h' = h
  Settles-if false m k h h' = h'

  Settles-get {ℓ} :
      {A : Type ℓ} (f : PrStack → Go A)
      → ((x : PrStack) → Settles (f x))
      → Settles (get_object >>= f)
  Settles-get f h = record { run = λ s. (h s.stack).run s }

  enter_initialization-Keeps :
      Keeps r server true
        (modify λ y. record y { status = record (y.status) { phase = Phase.initialization } })
  enter_initialization-Keeps s h =
      Safe-write r server true s _ refl
        (record { deploying_ready = λ d. absurd (initialization-ne d); timed = h.sound.timed })
        h.created h

  reconcile_inactive-Keeps : Keeps r server true (reconcile_inactive r)
  unfolding reconcile_inactive
  reconcile_inactive-Keeps =
      search (keeps, enter_initialization-Keeps, handle_initialization-Keeps) depth 10

  -- Every phase, with its handler.
  by_phase-Ends :
      (p : Phase) (s : State)
      → Safe server r true s
      → s.stack.status.phase ≡ p
      → Ends (λ _ t. Safe server r false t) (by_phase r p s)
  unfolding by_phase
  by_phase-Ends Phase.initialization s h e =
      (Settles-Keeps _ (handle_initialization-Keeps r server true)).run s h
  by_phase-Ends Phase.inactive s h e = (Settles-Keeps _ reconcile_inactive-Keeps).run s h
  by_phase-Ends Phase.provisioning s h e =
      (Settles-Keeps _ (handle_provisioning-Keeps r server true)).run s h
  by_phase-Ends Phase.deploying s h e =
      Ends-mono _ _ (handle_deployment r s) (handle_deployment-Keeps r server true parses s h e)
        λ a t p. Safe-forget r server true t p
  by_phase-Ends Phase.running s h e = (Settles-Keeps _ (handle_running-Keeps r server true)).run s h
  by_phase-Ends Phase.degraded s h e =
      (Settles-Keeps _ (handle_running-Keeps r server true)).run s h
  by_phase-Ends Phase.failed s h e = Safe-forget r server true s h
  by_phase-Ends Phase.cleaning s h e =
      (Settles-forget _ (handle_cleaning-Keeps r server parses)).run s h
  by_phase-Ends Phase.cleaned s h e = Safe-forget r server true s h
  by_phase-Ends (Phase.other _) s h e = Safe-forget r server true s h

  reconcile_by_phase-Settles : Settles (reconcile_by_phase r)
  unfolding reconcile_by_phase
  reconcile_by_phase-Settles = record { run = λ s h. by_phase-Ends s.stack.status.phase s h refl }

  deployed_at-Keeps : Keeps r server true (
      modify λ y. record y { status = record (y.status) { last_deployed_at = y.spec.deployed_at } })
  deployed_at-Keeps s h =
      Safe-write r server true s _ refl
        (record { deploying_ready = h.sound.deploying_ready; timed = h.sound.timed }) h.created h

  ruleset settles = (
    Settles-pure, Settles-if, Settles-attempt, Settles-get, Settles-bind, Settles-Keeps, keeps,
    reconcile_by_phase-Settles,
  )

  finish_rollout-Settles : Settles (finish_rollout r)
  unfolding finish_rollout
  finish_rollout-Settles = search (settles, deployed_at-Keeps) depth 12

  failed_rollout-Settles :
      (e : Error)
      → Settles (do
        emit r true "RolloutFailed" (concat ("Failed to rollout deployments: " ∷ e.text ∷ []))
        set_message (concat ("Rollout failed: " ∷ e.text ∷ []))
        save_status r
        pure {A = Reply} (after requeue_interval_medium, some e))
  failed_rollout-Settles e = search settles depth 12

  -- A rollout that is asked for knows its time.
  reconcile_active-Settles : Settles (reconcile_active r)
  unfolding reconcile_active
  reconcile_active-Settles = record {
    run = λ s h.
        Ends-if _ (should_rollout_deployments s.stack) _ (reconcile_by_phase r) s
          (λ e.
            Ends-attempt _ _ (rollout_deployments r) _ (finish_rollout r) s
              (rollout_deployments-Quiet r s e)
              (λ x t q. (failed_rollout-Settles x).run t (Quietly→Safe r server true s t q h))
              (λ t q. finish_rollout-Settles.run t (Quietly→Safe r server true s t q h)))
          (λ e. reconcile_by_phase-Settles.run s h);
  }

  expiration-Settles : Settles (handle_stack_expiration r)
  expiration-Settles = record { run = handle_stack_expiration-Ends r server }

  settled_expired-Keeps :
      (was_reactivated : Bool)
      → Keeps r server true (if was_reactivated then pure false else is_stack_expired r)
  settled_expired-Keeps true s h = h
  settled_expired-Keeps false s h =
      Quiet→Keeps r server true (is_stack_expired r) (is_stack_expired-Quiet r) s h

  reconcile_settled-Settles :
      (was_reactivated : Bool) → Settles (reconcile_settled r was_reactivated)
  unfolding reconcile_settled
  reconcile_settled-Settles was_reactivated =
      let inactive = handle_inactive_stack-Keeps r server in
      search
        (settles, settled_expired-Keeps, expiration-Settles, inactive, reconcile_active-Settles)
        depth 12

  set_active_at-Keeps : (t : ℕ) → Keeps r server true (modify (set_active_at t))
  set_active_at-Keeps t s h =
      Safe-write r server true s _ refl
        (record { deploying_ready = h.sound.deploying_ready; timed = λ d. refl }) h.created h

  reconcile_timed-Settles : (t : ℕ) → Settles (reconcile_timed r t)
  unfolding reconcile_timed
  reconcile_timed-Settles t =
      let expired = Quiet→Keeps r server true (is_stack_expired r) (is_stack_expired-Quiet r) in
      search (settles, expired, set_active_at-Keeps, reconcile_settled-Settles) depth 12

  -- A time of creation is noted.
  Safe-create :
      (s : State)
      → is_some s.stack.status.created_at ≡ true
      → Safe server r false s
      → Safe server r true s
  Safe-create s e h = record {
    sound = h.sound;
    stored_sound = h.stored_sound;
    limits = h.limits;
    created = λ k. e;
  }

  create-Settles :
      (t : ℕ) (s : State)
      → Safe server r false s
      → Ends
          (λ _ u. Safe server r false u)
          ((modify (set_created_at t) >> or_return (save_status r) (reconcile_timed r t)) s)
  create-Settles t s h =
      let written =
        Safe-write r server false s (set_created_at t s.stack) refl
          (record { deploying_ready = h.sound.deploying_ready; timed = λ d. refl }) (λ k. refl) h in
      let saved : Settles (or_return (save_status r) (reconcile_timed r t)) =
        search (settles, reconcile_timed-Settles) in
      saved.run _ (Safe-create _ refl written)

  -- From here on the object has a time of creation.
  reconcile_created-Keeps : Keeps r server false (reconcile_created r)
  unfolding reconcile_created
  reconcile_created-Keeps s h =
      let noted =
        Quietly→Safe r server false s t (record { same = refl; grown = more _ tt here }) h in
      Ends-maybe _ s.stack.status.created_at
        (modify (set_created_at time) >> or_return (save_status r) (reconcile_timed r time))
        (λ _. reconcile_timed r time) t (λ e. create-Settles time t noted)
        λ a e. (reconcile_timed-Settles time).run t (Safe-create t (ap is_some e) noted)
    where
      t : State
      t = record s { log = read_clock ∷ s.log }

      time : ℕ
      time = r.client.clock t.log

  add_finalizer-Keeps :
      Keeps r server false
        (modify λ y. record y { finalizers = y.finalizers ++ finalizer_name ∷ [] })
  add_finalizer-Keeps = Keeps-modify r server false _ (λ x. refl) (λ x. SameStatus-refl x.status)

  reconcile_live-Keeps : Keeps r server false (reconcile_live r)
  unfolding reconcile_live
  reconcile_live-Keeps =
      search (keeps, add_finalizer-Keeps, save_stack-Keeps, reconcile_created-Keeps) depth 10

  reconcile_fetched-Keeps : Keeps r server false (reconcile_fetched r)
  unfolding reconcile_fetched
  reconcile_fetched-Keeps = search (keeps, reconcile_live-Keeps, handle_deletion-Keeps)

  -- A reconciliation that starts with a well-formed PRStack stored, whose limits are quantities, ends
  -- without a panic, and the PRStack stored then is well formed: in the phase Deploying it has its
  -- MongoDB, NATS and Redis credentials, and with a time of creation it has one of its last activity.
  pub reconcile-Safe :
      (s : State)
      → WellFormed (server.stored s.log).status
      → HasLimits r (server.stored s.log).spec.resource_limits
      → Ends (λ _ t. WellFormed (server.stored t.log).status) (reconcile r s)
  unfolding reconcile
  reconcile-Safe s w limits = by_error (r.client.error l) refl
    where
      l : List Call
      l = get_stack ∷ s.log

      still : WellFormed (server.stored l).status
      still = subst WellFormed (sym (server.silent get_stack s.log tt)) w

      by_error :
          (e : Option Error)
          → r.client.error l ≡ e
          → Ends
              (λ _ t. WellFormed (server.stored t.log).status)
              (maybe e
                (put_object (r.client.stack l) >> reconcile_fetched r)
                (λ e.
                  if is_not_found e
                  then pure {A = Reply} (no_result, none)
                  else pure (no_result, some e))
                (record s { log = l }))
      by_error (some x) e = Ends-if _ (is_not_found x) _ _ _ (λ _. still) (λ _. still)
      by_error none e =
          let there = sym (server.fetched s.log e) in
          Ends-mono _ _ (reconcile_fetched r (record { stack = r.client.stack l; log = l }))
            (reconcile_fetched-Keeps _ (record {
              sound = subst (λ (x : PrStack). WellFormed x.status) there w;
              stored_sound = still;
              limits = subst (λ (x : PrStack). HasLimits r x.spec.resource_limits) there limits;
              created = λ k. cc;
            }))
            λ a t p. p.stored_sound
