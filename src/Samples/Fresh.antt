-- ===== src/Samples/Fresh.antt =====
-- A world that has nothing of the stack: a Get finds nothing, and there is no user to drop. A Create finds
-- the object there, but for one right after a Get.
use pishop_operator.Base.{
  String, ◌∷◌, [], Option, none, some, Bool, true, false, ◌≡◌, refl, if◌then◌else◌,
}
use mathlib.Core.Path.{subst}
use pishop_operator.Kube.{Kind, Object}
use pishop_operator.Client.{
  Client, Reason, Error, Call, Log, is_not_found, is_already_exists, update_stack, update_status,
}
use pishop_operator.Reconciler.{Reconciler}
use pishop_operator.Provisioning.Quiet.{ParsesLiterals}
use pishop_operator.Lifecycle.Safety.Invariant.{Server, SameStatus-refl}
use pishop_operator.Lifecycle.Progress.Rules.{IsFirm}
use pishop_operator.Samples.{sample_client, sample_reconciler, stored_in, stored_in-silent}

abbrev missing : Error
missing = record { reason = Reason.not_found; text = "not found" }

abbrev present : Error
present = record { reason = Reason.already_exists; text = "already exists" }

abbrev begins_with_get : Log → Bool
begins_with_get [] = false
begins_with_get (c ∷ l) = elim c [ Call.get _ _ _ ↦ true | _ ↦ false ]

abbrev fresh_error : Log → Option Error
fresh_error [] = none
fresh_error (Call.get _ _ _ ∷ l) = some missing
fresh_error (Call.create o ∷ l) = if begins_with_get l then none else some present
fresh_error (Call.drop_user u ∷ l) = some missing
fresh_error (_ ∷ l) = none

abbrev pub fresh_client : Client
fresh_client = record sample_client { error = fresh_error }

abbrev pub fresh_reconciler : Reconciler
fresh_reconciler = record sample_reconciler { client = fresh_client }

abbrev pub fresh_parses : ParsesLiterals fresh_reconciler
fresh_parses = record {
  cpu_0m = refl;
  memory_0 = refl;
  cpu_500m = refl;
  memory_512 = refl;
  memory_1 = refl;
}

pub fresh_error-firm : (c : Call) (l : Log) → IsFirm c → fresh_error (c ∷ l) ≡ none
fresh_error-firm c l h =
    elim c as (λ c. IsFirm c → fresh_error (c ∷ l) ≡ none) [
      | Call.get _ _ _ ↦ λ h. absurd h
      | Call.create _ ↦ λ h. absurd h
      | Call.drop_user _ ↦ λ h. absurd h
      | _ ↦ λ h. refl
    ]
      h

pub fresh_error-read :
    (k : Kind) (namespace name : String) (l : Log) (e : Error)
    → fresh_error (Call.get k namespace name ∷ l) ≡ some e
    → is_not_found e ≡ true
fresh_error-read k namespace name l e f =
    let same : missing ≡ e = cc in subst (λ e. is_not_found e ≡ true) same refl

pub fresh_error-created :
    (o : Object) (l : Log) (e : Error)
    → fresh_error (Call.create o ∷ l) ≡ some e
    → is_already_exists e ≡ true
fresh_error-created o l e f = by_test (begins_with_get l) f
  where
    by_test : (b : Bool) → (if b then none else some present) ≡ some e → is_already_exists e ≡ true
    by_test true f = cc
    by_test false f =
        let same : present ≡ e = cc in subst (λ e. is_already_exists e ≡ true) same refl

pub fresh-refused :
    (c : Call) (l : Log) {e : Error}
    → fresh_error (c ∷ l) ≡ some e
    → (stored_in (c ∷ l)).status ≡ (stored_in l).status
unfolding stored_in
fresh-refused c l {e} h =
    elim c
        as (λ c. fresh_error (c ∷ l) ≡ some e → (stored_in (c ∷ l)).status ≡ (stored_in l).status) [
          | update_stack x ↦ λ h. cc
          | update_status x ↦ λ h. cc
          | _ ↦ λ h. refl
        ]
      h

unfoldable pub fresh_server : Server fresh_client
unfolding stored_in
fresh_server = record {
  stored = stored_in;
  fetched = λ l e. refl;
  status_saved = λ x l e. (refl, refl, SameStatus-refl x.status);
  stack_saved = λ x l e. (refl, refl, refl);
  refused = fresh-refused;
  silent = stored_in-silent;
}
