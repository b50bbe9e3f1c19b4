-- ===== src/Validation/Safety.antt =====
-- Validation before a reconciliation: `ValidatePRStack` with `Reconcile`.
use pishop_operator.Base.{Option, none, some, ◌≡◌, refl}
use pishop_operator.Api.{PrStack, ResourceLimits}
use pishop_operator.Client.{State}
use pishop_operator.Client.Rules.{Ends}
use pishop_operator.Reconciler.{Reconciler}
use pishop_operator.Provisioning.Quiet.{ParsesLiterals}
use pishop_operator.Stack.Quiet.{HasLimits}
use pishop_operator.Validation.{validate_pr_stack}
use pishop_operator.Validation.Parts.{AreQuantities}
use pishop_operator.Validation.Accepts.{validate_pr_stack-IsValid}
use pishop_operator.Lifecycle.Main.{reconcile}
use pishop_operator.Lifecycle.Safety.Invariant.{WellFormed, Server}
use pishop_operator.Lifecycle.Safety.Reconcile.{reconcile-Safe}

module _ (r : Reconciler) where
  quantities-HasLimits :
      (o : Option ResourceLimits)
      → ((l : ResourceLimits) → o ≡ some l → AreQuantities r.client.parse_quantity l)
      → HasLimits r o
  quantities-HasLimits none h = tt
  quantities-HasLimits (some l) h = let (cpu, (memory, _)) = h l refl in (cpu, memory)

  validate_pr_stack-HasLimits :
      (x : PrStack)
      → validate_pr_stack r.client.parse_quantity x ≡ none
      → HasLimits r x.spec.resource_limits
  validate_pr_stack-HasLimits x h =
      quantities-HasLimits x.spec.resource_limits
        (((validate_pr_stack-IsValid r.client.parse_quantity x).0 h).limits)

  -- Where the PRStack stored has a well-formed status and passes `ValidatePRStack`, with the parser of
  -- quantities that the controller uses, a reconciliation ends without a panic.
  pub validate_pr_stack-reconcile :
      (server : Server r.client)
      → ParsesLiterals r
      → (s : State) → WellFormed (server.stored s.log).status
      → validate_pr_stack r.client.parse_quantity (server.stored s.log) ≡ none
      → Ends (λ _ t. WellFormed (server.stored t.log).status) (reconcile r s)
  validate_pr_stack-reconcile server parses s w h =
      reconcile-Safe r server parses s w (validate_pr_stack-HasLimits (server.stored s.log) h)
