-- ===== src/Lifecycle/Progress/Reconcile.antt =====
-- `Reconcile` in a world without errors: which phase the stored stack has after it.
use pishop_operator.Base.{ℕ, ◌∷◌, Option, none, some, true, ◌≡◌, sym, ap, ◌∙◌, if◌then◌else◌}
use mathlib.Core.Path.{subst}
use pishop_operator.Api.{PrStack, Phase}
use pishop_operator.Client.{
  Error, Log, State, Go, ◌>>=◌, ◌>>◌, pure, maybe, modify, put_object, is_not_found, get_stack,
  update_stack, read_clock,
}
use pishop_operator.Client.Rules.{Ends, Ends-mono}
use pishop_operator.Reconciler.{
  Reconciler, Reply, no_result, save_status, save_stack, finalizer_name,
}
use pishop_operator.Provisioning.Quiet.{ParsesLiterals}
use pishop_operator.Stack.Quiet.{HasLimits}
use pishop_operator.Stack.Ingress.{or_default}
use pishop_operator.Stack.Storage.{config_or_default}
use pishop_operator.Lifecycle.Cleaning.{contains_string, handle_deletion}
use pishop_operator.Lifecycle.Dead.{reconcile_timed-reconcile_unexpired}
use pishop_operator.Lifecycle.Main.{
  or_return, set_created_at, reconcile_timed, reconcile_created, reconcile_live, reconcile_fetched,
  reconcile,
}
use pishop_operator.Lifecycle.Safety.Invariant.{Server, WellFormed}
use pishop_operator.Lifecycle.Safety.Reconcile.{reconcile-Safe}
use pishop_operator.Lifecycle.Progress.Rules.{Works, WhenDone, Ends-WhenDone}
use pishop_operator.Lifecycle.Progress.Resources.{HasStorage}
use pishop_operator.Lifecycle.Progress.Handlers.{Reaches}
use pishop_operator.Lifecycle.Progress.Onward.{
  Advance, Hand, Onward, Onward-if, save_status-Onward, reconcile_unexpired-Onward,
}

-- Two reads of the clock, one right after the other, give the same time.
abbrev pub IsSteady : Reconciler → Type 0
IsSteady r =
    (l : Log) → r.client.clock (read_clock ∷ read_clock ∷ l) ≡ r.client.clock (read_clock ∷ l)

module _ (r : Reconciler) (server : Server r.client) (works : Works r) where
  module _ (p q : Phase) (advance : Advance p q) where
    module _ (steady : IsSteady r) where
      reconcile_timed-Onward :
          (time : ℕ) → Onward r server works p q advance (reconcile_timed r time)
      reconcile_timed-Onward time s h =
          subst (WhenDone (Reaches r server works q))
            (sym (reconcile_timed-reconcile_unexpired r time s (steady s.log)))
            (reconcile_unexpired-Onward r server works p q advance time s h)

      save_stack-Onward :
          (rest : Go Reply)
          → Onward r server works p q advance rest
          → (s : State) → Hand r server works p q advance s
          → (server.stored s.log).status.phase ≡ p
          → WhenDone (Reaches r server works q) (or_return (save_stack r) rest s)
      unfolding save_stack
      save_stack-Onward rest k s h kept =
          let l = update_stack s.stack ∷ s.log in
          let (there, spec, status) =
            server.stack_saved s.stack s.log (works.answered (update_stack s.stack) s.log tt) in
          subst
            (λ o. WhenDone (Reaches r server works q) (
              ((maybe o (put_object (r.client.stack l) >> pure {A = Option Error} none)
                    (λ e. pure (some e)))
                  >>= λ err. maybe err rest (λ e. pure (no_result, some e)))
                (record s { log = l })))
            (sym (works.answered (update_stack s.stack) s.log tt))
            (k (record { stack = r.client.stack l; log = l })
              (record {
                held = ap (λ x. x.phase) status ∙ kept;
                active = ap (λ x. x.active) spec ∙ h.active;
                storage =
                    subst
                      (λ x.
                        r.client.parse_quantity
                          (or_default (config_or_default x.backup_config).storage_size "10Gi")
                        ≡ none)
                      (sym spec) h.storage;
              }))

      reconcile_created-Onward : Onward r server works p q advance (reconcile_created r)
      unfolding reconcile_created
      reconcile_created-Onward s h = by_time s.stack.status.created_at
        where
          t : State
          t = record s { log = read_clock ∷ s.log }

          time : ℕ
          time = r.client.clock t.log

          k : Hand r server works p q advance t
          k = record { held = h.held; active = h.active; storage = h.storage }

          by_time :
              (o : Option ℕ)
              → WhenDone (Reaches r server works q) (
                  maybe o
                    (modify (set_created_at time)
                      >> or_return (save_status r) (reconcile_timed r time))
                    (λ _. reconcile_timed r time)
                    t)
          by_time none =
              save_status-Onward r server works p q advance (reconcile_timed r time)
                (reconcile_timed-Onward time) _
                (record { held = k.held; active = k.active; storage = k.storage })
          by_time (some _) = reconcile_timed-Onward time t k

      reconcile_live-Onward :
          (s : State)
          → Hand r server works p q advance s
          → (server.stored s.log).status.phase ≡ p
          → WhenDone (Reaches r server works q) (reconcile_live r s)
      unfolding reconcile_live
      reconcile_live-Onward s h kept =
          Onward-if r server works p q advance (contains_string s.stack.finalizers finalizer_name) _
            _ s (reconcile_created-Onward s h)
            (save_stack-Onward (reconcile_created r) reconcile_created-Onward _
              (record { held = h.held; active = h.active; storage = h.storage }) kept)

      reconcile_fetched-Onward :
          (s : State)
          → Hand r server works p q advance s
          → (server.stored s.log).status.phase ≡ p
          → s.stack.deletion_timestamp ≡ none
          → WhenDone (Reaches r server works q) (reconcile_fetched r s)
      unfolding reconcile_fetched
      reconcile_fetched-Onward s h kept alive =
          subst
            (λ o.
              WhenDone (Reaches r server works q)
                (maybe o (reconcile_live r) (λ _. handle_deletion r) s))
            (sym alive) (reconcile_live-Onward s h kept)

-- A PRStack that is active, is not to be deleted and asks for a storage that is a quantity.
pub record IsActive (r : Reconciler) (x : PrStack) : Type 0 where
  pub active : x.spec.active ≡ true
  pub alive : x.deletion_timestamp ≡ none
  pub storage : HasStorage r x

module _ (r : Reconciler) (server : Server r.client) (works : Works r) where
  reconcile-Reaches :
      {p q : Phase}
      → Advance p q
      → IsSteady r
      → (s : State) → (server.stored s.log).status.phase ≡ p
      → IsActive r (server.stored s.log)
      → WhenDone (Reaches r server works q) (reconcile r s)
  unfolding reconcile
  reconcile-Reaches {p} {q} advance steady s held x =
      let l = get_stack ∷ s.log in
      let there = server.fetched s.log (works.answered get_stack s.log tt) in
      let t : State = record { stack = r.client.stack l; log = l } in
      subst
        (λ o. WhenDone (Reaches r server works q) (
          maybe o (put_object (r.client.stack l) >> reconcile_fetched r)
            (λ e.
              if is_not_found e
              then pure {A = Reply} (no_result, none)
              else pure (no_result, some e))
            (record s { log = l })))
        (sym (works.answered get_stack s.log tt))
        (reconcile_fetched-Onward r server works p q advance steady t
          (record {
            held = ap (λ (x : PrStack). x.status.phase) there ∙ held;
            active = ap (λ (x : PrStack). x.spec.active) there ∙ x.active;
            storage = subst (HasStorage r) (sym there) x.storage;
          })
          (ap (λ x. x.phase) (server.silent get_stack s.log tt) ∙ held)
          (ap (λ (x : PrStack). x.deletion_timestamp) there ∙ x.alive))

  -- In a world without errors, in which a Get may find nothing and a Create may find the object there,
  -- whose clock gives the same time in two reads one right after the other, and in which the literals of
  -- the source are quantities, one reconciliation of a stack that is active and not to be deleted, with a
  -- well-formed status, whose limits and storage are quantities, ends without a panic and an error, and
  -- leads from Initialization and from Inactive to Provisioning, from there to Deploying, and from there
  -- to Running, in the status that is stored.
  pub reconcile-Advance :
      (p q : Phase)
      → Advance p q
      → ParsesLiterals r
      → IsSteady r
      → (s : State) → (server.stored s.log).status.phase ≡ p
      → IsActive r (server.stored s.log)
      → WellFormed (server.stored s.log).status
      → HasLimits r (server.stored s.log).spec.resource_limits
      → Ends
          (λ reply t. (reply.1 ≡ none) × ((server.stored t.log).status.phase ≡ q))
          (reconcile r s)
  reconcile-Advance p q advance parses steady s held x sound limits =
      Ends-mono _ _ (reconcile r s)
        (Ends-WhenDone (λ _ t. WellFormed (server.stored t.log).status) (Reaches r server works q)
          (reconcile r s) (reconcile-Safe r server parses s sound limits)
          (reconcile-Reaches advance steady s held x))
        λ _ t e. e.1
