-- ===== src/Cleanup/Disjoint.antt =====
-- The cleanups of two stacks, against each other.
use pishop_operator.Base.{String, ◌≡◌, ◌≢◌, sym, ◌∙◌}
use pishop_operator.Kube.{Kind}
use pishop_operator.Api.{PrStack}
use pishop_operator.Client.{Call, Log, State}
use pishop_operator.Client.Rules.{Ends, Ends-mono}
use pishop_operator.Naming.{get_namespace_name, pr_user}
use pishop_operator.Naming.Isolation.{
  AllDigits, get_namespace_name-inj, pr_user-inj, database_form_inj,
}
use pishop_operator.Reconciler.{Reconciler}
use pishop_operator.Cleanup.{cleanup_all_resources}
use pishop_operator.Cleanup.Confined.{IsOwn, Adds, same, add, cleanup_all_resources-Own}

-- A call that removes something.
pub data IsRemoval : Call → Type 0 where
  deleted : (kind : Kind) (namespace name : String) → IsRemoval (Call.delete kind namespace name)
  dropped_database : (d : String) → IsRemoval (Call.drop_database d)
  dropped_user : (u : String) → IsRemoval (Call.drop_user u)

module _ (x y : PrStack) (x_digits : AllDigits x.spec.pr_number)
    (y_digits : AllDigits y.spec.pr_number) where
  abbrev Same : Type 0
  Same = x.spec.pr_number ≡ y.spec.pr_number

  -- What both stacks may remove belongs to the same pull request.
  removal-same : (c : Call) → IsRemoval c → IsOwn x c → IsOwn y c → Same
  unfolding get_namespace_name pr_user
  removal-same _ (deleted Kind.namespace_kind n m) a b =
      get_namespace_name-inj x.spec.pr_number y.spec.pr_number (sym a ∙ b)
  removal-same _ (deleted Kind.deployment_kind n m) a b =
      get_namespace_name-inj x.spec.pr_number y.spec.pr_number (sym a ∙ b)
  removal-same _ (deleted Kind.service_kind n m) a b =
      get_namespace_name-inj x.spec.pr_number y.spec.pr_number (sym a ∙ b)
  removal-same _ (deleted Kind.persistent_volume_claim_kind n m) a b =
      get_namespace_name-inj x.spec.pr_number y.spec.pr_number (sym a ∙ b)
  removal-same _ (dropped_database d) (s, (_, a)) (t, (_, b)) =
      (database_form_inj s t x.spec.pr_number y.spec.pr_number x_digits y_digits (sym a ∙ b)).1
  removal-same _ (dropped_user u) a b = pr_user-inj x.spec.pr_number y.spec.pr_number (sym a ∙ b)

  abbrev pub Spares : Call → Type 0
  Spares c = IsRemoval c → ¬ IsOwn y c

  Adds-Spares :
      x.spec.pr_number ≢ y.spec.pr_number → (l m : Log) → Adds (IsOwn x) l m → Adds Spares l m
  Adds-Spares ne l m same = same
  Adds-Spares ne l m (add {m = k} c own g) =
      add c (λ h other. ne (removal-same c h own other)) (Adds-Spares ne l k g)

-- Of two stacks with different numbers, both all digits, the cleanup of the first removes nothing that
-- the cleanup of the second may remove: no namespace, object, database or user.
pub cleanup_all_resources-Spares :
    (r : Reconciler) (s : State) (y : PrStack)
    → AllDigits s.stack.spec.pr_number
    → AllDigits y.spec.pr_number
    → s.stack.spec.pr_number ≢ y.spec.pr_number
    → Ends (λ _ t. Adds (λ c. IsRemoval c → ¬ IsOwn y c) s.log t.log) (cleanup_all_resources r s)
cleanup_all_resources-Spares r s y hx hy ne =
    Ends-mono _ _ (cleanup_all_resources r s) (cleanup_all_resources-Own r s)
      λ _ t (_, own). Adds-Spares s.stack y hx hy ne s.log t.log own
