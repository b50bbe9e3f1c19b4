-- ===== src/Lifecycle/Failure.antt =====
-- Errors of the provisioning: what `handleProvisioning` returns and which phase it leaves.
use pishop_operator.Base.{
  String, List, ◌∷◌, Option, none, some, true, ◌≡◌, refl, ap, ◌∙◌, is_some, ◌⊎◌, inl, inr,
}
use pishop_operator.Api.{PrStack, Phase}
use pishop_operator.Client.{
  Call, Error, State, Go, ◌>>◌, pure, attempt, maybe, put_object, update_status,
}
use pishop_operator.Client.Rules.{Ends, Ends-mono}
use pishop_operator.Reconciler.{
  Reconciler, Reply, no_result, after, requeue_interval_short, save_status,
}
use pishop_operator.Conditions.{
  set_condition_now, set_progressing_condition, update_status_with_error, record_provisioning_error,
}
use pishop_operator.Lifecycle.Provision.{finish_provisioning, handle_provisioning}
use pishop_operator.Lifecycle.Verdict.{set_condition_now-Fixes}
use pishop_operator.Lifecycle.Safety.Invariant.{Server, Safe}
use pishop_operator.Lifecycle.Safety.Provisioning.{handle_provisioning-Keeps}
use pishop_operator.Lifecycle.Strict.{Clean, CleanAfter}
use pishop_operator.Lifecycle.Strict.Provisioning.{reply_error, handle_provisioning-Strict}
use pishop_operator.Lifecycle.Progress.Rules.{
  WhenDone, WhenDone-bind, WhenDone-mono, Ends-done, Ends-WhenDone, Leads, Leads-get, Leads-bind,
}

Leads-either :
    {B : Type 0} (Q : B → State → Type 0) (m : Go (Option Error)) (fail : Error → Go B)
    (rest : Go B)
    → ((e : Error) → Leads Q (fail e))
    → Leads Q rest
    → Leads Q (attempt m fail rest)
Leads-either Q m fail rest h k = Leads-bind Q m _ (by_error h k)
  where
    by_error :
        ((e : Error) → Leads Q (fail e))
        → Leads Q rest
        → (o : Option Error) → Leads Q (maybe o rest fail)
    by_error h k none = k
    by_error h k (some e) = h e

module _ (r : Reconciler) (server : Server r.client) where
  -- A save keeps the phase at hand, and it stores the object where it returns no error.
  abbrev Kept : PrStack → Option Error → State → Type 0
  Kept x o t =
      (t.stack.status.phase ≡ x.status.phase)
      × (((o ≡ none) × (server.stored t.log ≡ t.stack)) ⊎ (is_some o ≡ true))

  save_status-Kept : (s : State) → WhenDone (Kept s.stack) (save_status r s)
  unfolding save_status
  save_status-Kept s = by_error (r.client.error l) refl
    where
      l : List Call
      l = update_status s.stack ∷ s.log

      by_error :
          (o : Option Error)
          → r.client.error l ≡ o
          → WhenDone (Kept s.stack) (
              maybe o
                (put_object (r.client.stack l) >> pure {A = Option Error} none)
                (λ e. pure (some e))
                (record s { log = l }))
      by_error none e =
          let (there, spec, status) = server.status_saved s.stack s.log e in
          (status.same_phase, inl (refl, there))
      by_error (some x) e = (refl, inr refl)

  condition-phase :
      (p : Phase) (type status reason message : String) (s : State)
      → s.stack.status.phase ≡ p
      → WhenDone
          (λ _ t. t.stack.status.phase ≡ p)
          (set_condition_now r type status reason message s)
  condition-phase p type status reason message s h =
      let services = s.stack.status.services in
      let m = set_condition_now r type status reason message in
      WhenDone-mono (λ _ t. (t.stack.status.phase ≡ p) × (t.stack.status.services ≡ services))
        (λ _ t. t.stack.status.phase ≡ p) (m s)
        (Ends-done (λ _ t. (t.stack.status.phase ≡ p) × (t.stack.status.services ≡ services)) (m s)
          ((set_condition_now-Fixes p services r type status reason message).run s h refl))
        λ _ t e. e.0

  -- What is told: no error, and the phase stored is Deploying; or an error, with one of two phases.
  abbrev pub Told : Reply → State → Type 0
  Told reply t =
      ((reply.1 ≡ none) × ((server.stored t.log).status.phase ≡ Phase.deploying))
      ⊎ ((is_some reply.1 ≡ true)
          × ((t.stack.status.phase ≡ Phase.failed) ⊎ (t.stack.status.phase ≡ Phase.deploying)))

  update_status_with_error-failed :
      (message : String) (e : Error) (s : State)
      → WhenDone
          (λ _ t. t.stack.status.phase ≡ Phase.failed)
          (update_status_with_error r message e s)
  unfolding update_status_with_error
  update_status_with_error-failed message e s =
      WhenDone-bind (λ _ t. t.stack.status.phase ≡ Phase.failed) _
        (set_condition_now r "Ready" "False" "Error" _) _ _
        (condition-phase Phase.failed "Ready" "False" "Error" _ _ refl)
        λ _ t p.
          WhenDone-bind (λ _ t. t.stack.status.phase ≡ Phase.failed) _
            (set_condition_now r "Degraded" "True" "ReconciliationFailed" _) _ t
            (condition-phase Phase.failed "Degraded" "True" "ReconciliationFailed" _ t p)
            λ _ u q.
              WhenDone-bind (Kept u.stack) _ (save_status r) _ u (save_status-Kept u)
                λ _ v k. k.0 ∙ q

  record_provisioning_error-Told :
      (component : String) (e : Error) → Leads Told (record_provisioning_error r component e)
  unfolding record_provisioning_error
  record_provisioning_error-Told component e = record {
    run = λ s.
        WhenDone-bind (λ _ t. t.stack.status.phase ≡ Phase.failed) Told
          (update_status_with_error r _ e) _ _ (update_status_with_error-failed _ e _)
          λ _ t p. inr (refl, inl p);
  }

  finish_provisioning-Told : Leads Told (finish_provisioning r)
  unfolding finish_provisioning set_progressing_condition
  finish_provisioning-Told = record {
    run = λ s.
        WhenDone-bind (λ _ t. t.stack.status.phase ≡ Phase.deploying) Told
          (set_progressing_condition r "Deploying" "Deploying services to cluster") _ _
          (condition-phase Phase.deploying "Progressing" "True" "Deploying" _ _ refl)
          λ _ t p.
            WhenDone-bind (Kept t.stack) Told (save_status r) _ t (save_status-Kept t)
              λ o u k. told o u (k.0 ∙ p) k.1;
  }
    where
      told :
          (o : Option Error) (u : State)
          → u.stack.status.phase ≡ Phase.deploying
          → ((o ≡ none) × (server.stored u.log ≡ u.stack)) ⊎ (is_some o ≡ true)
          → WhenDone Told (
              maybe o
                (pure {A = Reply} (after requeue_interval_short, none))
                (λ e. pure (no_result, some e))
                u)
      told none u p (inl (_, there)) = inl (refl, ap (λ (x : PrStack). x.status.phase) there ∙ p)
      told none u p (inr f) = cc
      told (some e) u p k = inr (refl, inr p)

  handle_provisioning-Leads : Leads Told (handle_provisioning r)
  unfolding handle_provisioning
  handle_provisioning-Leads =
      search
        (
          Leads-get, Leads-either, Leads-bind, record_provisioning_error-Told,
          finish_provisioning-Told,
        )
        depth 14

  Told-Clean :
      (s : State) (reply : Reply) (t : State)
      → Told reply t
      → (reply.1 ≡ none → Clean r.client s.log t.log)
      → ((reply.1 ≡ none)
          × (((server.stored t.log).status.phase ≡ Phase.deploying) × Clean r.client s.log t.log))
        ⊎ ((is_some reply.1 ≡ true)
            × ((t.stack.status.phase ≡ Phase.failed) ⊎ (t.stack.status.phase ≡ Phase.deploying)))
  Told-Clean s reply t (inl (e, p)) clean = inl (e, (p, clean e))
  Told-Clean s reply t (inr x) clean = inr x

  -- A provisioning that starts in a safe state ends without a panic. Without an error the phase Deploying
  -- is stored, and every call that was made had no error but those that are passed over: a Get that found
  -- nothing, a Create that found the object there, and any of an event, of an index, of the removal of the
  -- user, of the disconnection and of the clock. With an error the object at hand is in the phase
  -- Failed or Deploying.
  pub handle_provisioning-Told :
      (s : State)
      → Safe server r true s
      → Ends
          (λ reply t.
            ((reply.1 ≡ none)
              × (((server.stored t.log).status.phase ≡ Phase.deploying)
                  × Clean r.client s.log t.log))
            ⊎ ((is_some reply.1 ≡ true)
                × ((t.stack.status.phase ≡ Phase.failed)
                    ⊎ (t.stack.status.phase ≡ Phase.deploying))))
          (handle_provisioning r s)
  handle_provisioning-Told s h =
      Ends-mono _ _ (handle_provisioning r s)
        (Ends-WhenDone (λ reply t. Safe server r true t × Told reply t)
          (CleanAfter r (reply_error r) s) (handle_provisioning r s)
          (Ends-WhenDone (λ _ t. Safe server r true t) Told (handle_provisioning r s)
            (handle_provisioning-Keeps r server true s h) (handle_provisioning-Leads.run s))
          ((handle_provisioning-Strict r).run s))
        λ reply t ((_, told), clean). Told-Clean s reply t told clean
