-- ===== src/Lifecycle/Phases/Steps.antt =====
-- The steps of the phases through `Reconcile`, controllers/prstack_controller.go.
use pishop_operator.Base.{
  ℕ, String, List, ◌∷◌, [], ◌++◌, ◌≡◌, refl, sym, ap, Bool, true, false, Option, none, some,
  if◌then◌else◌,
}
use mathlib.Core.Path.{subst}
use pishop_operator.Api.{PrStack, Phase}
use pishop_operator.Client.{
  Error, Call, State, Outcome, done, panic, Go, ◌>>=◌, ◌>>◌, pure, attempt, maybe, get_object,
  put_object, modify, is_not_found, get_stack,
}
use pishop_operator.Reconciler.{
  Reconciler, Reply, no_result, after, requeue_interval_short, finalizer_name, set_message,
  set_phase, save_status,
}
use pishop_operator.Cluster.{rollout_deployments}
use pishop_operator.Lifecycle.Expiry.{
  is_stack_expired, handle_inactive_stack, handle_stack_expiration,
}
use pishop_operator.Lifecycle.Safety.Expiry.{is_stack_expired-Quiet}
use pishop_operator.Lifecycle.Cleaning.{is_cleaning, handle_cleaning, handle_deletion}
use pishop_operator.Lifecycle.Main.{
  set_active_at, set_created_at, by_phase, reconcile_by_phase, finish_rollout, reconcile_active,
  reconcile_settled, reconcile_timed, reconcile_created, reconcile_live, reconcile_fetched,
  reconcile,
}
use pishop_operator.Lifecycle.Safety.Invariant.{Server}
use pishop_operator.Lifecycle.Phases.Rules.{
  After, After-bind, Staged, Within, Within-pure, within, Within-modify, Quiet-Within,
}
use pishop_operator.Lifecycle.Phases.Resources.{rollout_deployments-Within}
use pishop_operator.Lifecycle.Phases.Handlers.{
  Step, stay, clean, start, initialization-Within, reconcile_inactive-Within,
  handle_provisioning-Within, handle_deployment-Within, handle_running-Within,
  handle_cleaning-Within, handle_inactive_stack-Within, handle_stack_expiration-Within,
}

module _ (r : Reconciler) (server : Server r.client) where
  -- The handler of a phase takes a step from it.
  by_phase-Within : (q : Phase) → Within r server (Step q) (by_phase r q)
  unfolding by_phase
  by_phase-Within Phase.initialization = initialization-Within r server Phase.initialization start
  by_phase-Within Phase.inactive = reconcile_inactive-Within r server
  by_phase-Within Phase.provisioning = handle_provisioning-Within r server
  by_phase-Within Phase.deploying = handle_deployment-Within r server
  by_phase-Within Phase.running = handle_running-Within r server Phase.running
  by_phase-Within Phase.degraded = handle_running-Within r server Phase.degraded
  by_phase-Within Phase.failed = Within-pure r server (Step Phase.failed) _
  by_phase-Within Phase.cleaning = handle_cleaning-Within r server
  by_phase-Within Phase.cleaned = Within-pure r server (Step Phase.cleaned) _
  by_phase-Within (Phase.other t) = Within-pure r server (Step (Phase.other t)) _

  -- Deletion goes to Cleaning, or from there on to the cleanup.
  deletion-Within :
      (q : Phase)
      → Within r server (Step q) (
          if is_cleaning q
          then handle_cleaning r
          else (set_phase Phase.cleaning "Cleaning up PR stack resources"
              >> attempt
                  (save_status r)
                  (λ e. pure {A = Reply} (no_result, some e))
                  (pure (after requeue_interval_short, none))))
  deletion-Within Phase.cleaning = handle_cleaning-Within r server
  deletion-Within Phase.initialization = search (within, clean) depth 8
  deletion-Within Phase.inactive = search (within, clean) depth 8
  deletion-Within Phase.provisioning = search (within, clean) depth 8
  deletion-Within Phase.deploying = search (within, clean) depth 8
  deletion-Within Phase.running = search (within, clean) depth 8
  deletion-Within Phase.degraded = search (within, clean) depth 8
  deletion-Within Phase.failed = search (within, clean) depth 8
  deletion-Within Phase.cleaned = search (within, clean) depth 8
  deletion-Within (Phase.other t) = search (within, clean) depth 8

module _ (r : Reconciler) (server : Server r.client) (p : Phase) where
  abbrev Is : Phase → Type 0
  Is q = p ≡ q

  -- From the phase `p`, held and stored, the method ends or panics in a phase that a step leads to.
  record Leads {ℓ} {A : Type ℓ} (m : Go A) : Type 0 where
    run : (s : State) → Staged r server Is s → After (Staged r server (Step p)) (m s)

  Staged-stay : (s : State) → Staged r server Is s → Staged r server (Step p) s
  Staged-stay s h = record {
    held = subst (Step p) h.held (stay p);
    kept = subst (Step p) h.kept (stay p);
  }

  Leads-Within {ℓ} : {A : Type ℓ} (m : Go A) → Within r server (Step p) m → Leads m
  Leads-Within m w = record { run = λ s h. w.run s (Staged-stay s h) }

  Leads-bind {ℓ κ} :
      {A : Type ℓ} {B : Type κ} (m : Go A) (f : A → Go B)
      → Within r server Is m
      → ((a : A) → Leads (f a))
      → Leads (m >>= f)
  Leads-bind m f w k = record {
    run = λ s h.
        After-bind (Staged r server Is) (Staged r server (Step p)) m f s (w.run s h) Staged-stay
          λ a t q. (k a).run t q;
  }

  Leads-maybe {ℓ} :
      {A : Type 0} {B : Type ℓ} (o : Option A) (absent : Go B) (present : A → Go B)
      → Leads absent
      → ((a : A) → Leads (present a))
      → Leads (maybe o absent present)
  Leads-maybe none absent present h k = h
  Leads-maybe (some a) absent present h k = k a

  Leads-attempt :
      {B : Type 0} (m : Go (Option Error)) (fail : Error → Go B) (rest : Go B)
      → Within r server Is m
      → ((e : Error) → Leads (fail e))
      → Leads rest
      → Leads (attempt m fail rest)
  Leads-attempt m fail rest w bad good = Leads-bind m _ w λ err. Leads-maybe err rest fail good bad

  Leads-if {ℓ} :
      {B : Type ℓ} (b : Bool) (m k : Go B) → Leads m → Leads k → Leads (if b then m else k)
  Leads-if true m k h h' = h
  Leads-if false m k h h' = h'

  Leads-get {ℓ} :
      {A : Type ℓ} (f : PrStack → Go A) → ((x : PrStack) → Leads (f x)) → Leads (get_object >>= f)
  Leads-get f h = record { run = λ s. (h s.stack).run s }

  Leads-pure {ℓ} : {A : Type ℓ} (a : A) → Leads (pure a)
  Leads-pure a = record { run = λ s h. Staged-stay s h }

  ruleset leads = (Leads-pure, Leads-maybe, Leads-attempt, Leads-if, Leads-get, Leads-bind, within)

  -- What holds from the phase at hand holds from `p`.
  Leads-from :
      (f : Phase → Go Reply)
      → ((q : Phase) → Within r server (Step q) (f q))
      → Leads (get_object >>= λ x. f x.status.phase)
  Leads-from f w = record {
    run = λ s h.
        let q = s.stack.status.phase in
        subst (λ o. Staged r server (Step o) s → After (Staged r server (Step o)) (f q s))
          (sym h.held) ((w q).run s) (Staged-stay s h);
  }

  handle_deletion-Leads : Leads (handle_deletion r)
  unfolding handle_deletion
  handle_deletion-Leads = Leads-from _ (deletion-Within r server)

  by_phase-Leads : Leads (reconcile_by_phase r)
  unfolding reconcile_by_phase
  by_phase-Leads = Leads-from (by_phase r) (by_phase-Within r server)

  active_at-Within : (t : ℕ) → Within r server Is (modify (set_active_at t))
  active_at-Within t = Within-modify r server Is _ λ x. refl

  created_at-Within : (t : ℕ) → Within r server Is (modify (set_created_at t))
  created_at-Within t = Within-modify r server Is _ λ x. refl

  deployed_at-Within : Within r server Is (
      modify λ y. record y { status = record (y.status) { last_deployed_at = y.spec.deployed_at } })
  deployed_at-Within = Within-modify r server Is _ λ x. refl

  message-Within : (m : String) → Within r server Is (set_message m)
  message-Within m = Within-modify r server Is _ λ x. refl

  finalizer-Within :
      Within r server Is (modify λ y. record y { finalizers = y.finalizers ++ finalizer_name ∷ [] })
  finalizer-Within = Within-modify r server Is _ λ x. refl

  expired-Is : Within r server Is (is_stack_expired r)
  expired-Is = Quiet-Within r server Is (is_stack_expired r) (is_stack_expired-Quiet r)

  rollout-Is : Within r server Is (rollout_deployments r)
  rollout-Is = rollout_deployments-Within r server Is

  finish_rollout-Leads : Leads (finish_rollout r)
  unfolding finish_rollout
  finish_rollout-Leads = search (leads, deployed_at-Within, by_phase-Leads) depth 10

  reconcile_active-Leads : Leads (reconcile_active r)
  unfolding reconcile_active
  reconcile_active-Leads =
      search (leads, rollout-Is, message-Within, finish_rollout-Leads, by_phase-Leads) depth 10

  settled-Is : (b : Bool) → Within r server Is (if b then pure false else is_stack_expired r)
  settled-Is true = Within-pure r server Is false
  settled-Is false = expired-Is

  inactive-Leads : Leads (handle_inactive_stack r)
  inactive-Leads = Leads-Within (handle_inactive_stack r) (handle_inactive_stack-Within r server p)

  expiration-Leads : Leads (handle_stack_expiration r)
  expiration-Leads =
      Leads-Within (handle_stack_expiration r) (handle_stack_expiration-Within r server p)

  reconcile_settled-Leads : (b : Bool) → Leads (reconcile_settled r b)
  unfolding reconcile_settled
  reconcile_settled-Leads b =
      search (leads, settled-Is, inactive-Leads, expiration-Leads, reconcile_active-Leads) depth 10

  reconcile_timed-Leads : (t : ℕ) → Leads (reconcile_timed r t)
  unfolding reconcile_timed
  reconcile_timed-Leads t =
      search (leads, expired-Is, active_at-Within, reconcile_settled-Leads) depth 10

  reconcile_created-Leads : Leads (reconcile_created r)
  unfolding reconcile_created
  reconcile_created-Leads = search (leads, created_at-Within, reconcile_timed-Leads) depth 10

  reconcile_live-Leads : Leads (reconcile_live r)
  unfolding reconcile_live
  reconcile_live-Leads = search (leads, finalizer-Within, reconcile_created-Leads) depth 10

  reconcile_fetched-Leads : Leads (reconcile_fetched r)
  unfolding reconcile_fetched
  reconcile_fetched-Leads = search (leads, handle_deletion-Leads, reconcile_live-Leads)

module _ (r : Reconciler) (server : Server r.client) where
  -- Whether a reconciliation ends or panics, and whichever calls fail, the phase of the PRStack that
  -- the server holds after it is the one before or one that a step of the phases leads to.
  pub reconcile-Step :
      (s : State)
      → After
          (λ t. Step (server.stored s.log).status.phase (server.stored t.log).status.phase)
          (reconcile r s)
  unfolding reconcile
  reconcile-Step s = by_error (r.client.error l) refl
    where
      p : Phase
      p = (server.stored s.log).status.phase

      l : List Call
      l = get_stack ∷ s.log

      same : (server.stored l).status.phase ≡ p
      same = ap (λ x. x.phase) (server.silent get_stack s.log tt)

      kept : Step p (server.stored l).status.phase
      kept = subst (Step p) (sym same) (stay p)

      over :
          (o : Outcome Reply)
          → After (Staged r server (Step p)) o
          → After (λ t. Step p (server.stored t.log).status.phase) o
      over (done a t) h = h.kept
      over (panic t) h = h.kept

      by_error :
          (e : Option Error)
          → r.client.error l ≡ e
          → After
              (λ t. Step p (server.stored t.log).status.phase)
              (maybe e
                (put_object (r.client.stack l) >> reconcile_fetched r)
                (λ e.
                  if is_not_found e
                  then pure {A = Reply} (no_result, none)
                  else pure (no_result, some e))
                (record s { log = l }))
      by_error (some x) e =
          elim (is_not_found x)
            as (λ b.
              After (λ t. Step p (server.stored t.log).status.phase)
                ((if b then pure {A = Reply} (no_result, none) else pure (no_result, some x))
                  (record s { log = l }))) [ true ↦ kept | false ↦ kept ]
      by_error none e =
          let start_here : State = record { stack = r.client.stack l; log = l } in
          over (reconcile_fetched r start_here) (
            (reconcile_fetched-Leads r server p).run start_here (record {
              held = sym (ap (λ (x : PrStack). x.status.phase) (server.fetched s.log e));
              kept = sym same;
            }))
