-- ===== src/Lifecycle/Dead.antt =====
-- The tests of a stack's age in `Reconcile`, controllers/prstack_controller.go.
use pishop_operator.Base.{
  ℕ, ◌≡◌, refl, sym, ap, ◌∙◌, Bool, true, false, not, ◌&&◌, ◌||◌, Option, none, some, ◌∷◌, arith,
  if◌then◌else◌,
}
use mathlib.Core.Path.{subst}
use pishop_operator.Client.{
  Log, State, done, panic, Go, ◌>>=◌, ◌>>◌, get_object, modify, read_clock,
}
use pishop_operator.Reconciler.{Reconciler, Reply, save_status}
use pishop_operator.Lifecycle.Expiry.{
  active_since, is_past, is_stack_expired, handle_stack_expiration, handle_inactive_stack,
}
use pishop_operator.Lifecycle.Main.{
  is_inactive, or_return, set_active_at, reconcile_active, reconcile_settled, reconcile_timed,
}

-- The reconciliation after the tests of the age, with no step for an expired stack.
abbrev pub reconcile_by_activity : Reconciler → Go Reply
reconcile_by_activity r = do
  x ← get_object
  if not x.spec.active then handle_inactive_stack r else reconcile_active r

-- The reconciliation from the first test on, with no step for an expired stack.
unfoldable pub reconcile_unexpired : Reconciler → ℕ → Go Reply
reconcile_unexpired r time = do
  expired ← is_stack_expired r
  x ← get_object
  if x.spec.active && (is_inactive x.status.phase || expired)
      then modify (set_active_at time) >> or_return (save_status r) (reconcile_by_activity r)
      else (is_stack_expired r >> reconcile_by_activity r)

-- Where the stack is not reactivated, it has not both expired and an active specification.
not_both :
    (active inactive expired : Bool)
    → active && (inactive || expired) ≡ false
    → expired && active ≡ false
not_both active inactive expired e = ground arith

same_otherwise {ℓ} :
    {A : Type ℓ} (c : Bool) (renewed rest other : Go A) (s : State)
    → (c ≡ false → rest s ≡ other s)
    → (if c then renewed else rest) s ≡ (if c then renewed else other) s
same_otherwise true renewed rest other s h = refl
same_otherwise false renewed rest other s h = h refl

unless_false {ℓ} :
    {A : Type ℓ} (c : Bool) (m k : Go A) (s : State) → c ≡ false → (if c then m else k) s ≡ k s
unless_false true m k s e = cc
unless_false false m k s e = refl

bind_done {ℓ κ} :
    {A : Type ℓ} {B : Type κ} (m : Go A) (f : A → Go B) (s t : State) (a : A)
    → m s ≡ done a t
    → (m >>= f) s ≡ f a t
bind_done m f s t a e = ap (λ o. elim o [ done x u ↦ f x u | panic u ↦ panic u ]) e

module _ (r : Reconciler) where
  untimed_test : (s : State) → active_since s.stack ≡ none → is_stack_expired r s ≡ done false s
  unfolding is_stack_expired
  untimed_test s e = rw e refl

  timed_test :
      (s : State) (u : ℕ)
      → active_since s.stack ≡ some u
      → is_stack_expired r s
        ≡ done
            (is_past (r.client.clock (read_clock ∷ s.log)) u)
            (record s { log = read_clock ∷ s.log })
  unfolding is_stack_expired
  timed_test s u e = rw e refl

  module _ (time : ℕ) (s : State) where
    by_tests :
        (b : Bool) (l m : Log)
        → is_stack_expired r s ≡ done b (record s { log = l })
        → is_stack_expired r (record s { log = l }) ≡ done b (record s { log = m })
        → reconcile_timed r time s ≡ reconcile_unexpired r time s
    unfolding reconcile_timed reconcile_settled reconcile_unexpired
    by_tests b l m e f =
        let here = record s { log = l } in
        let later = record s { log = m } in
        bind_done (is_stack_expired r) _ s here b e
        ∙ same_otherwise (s.stack.spec.active && (is_inactive s.stack.status.phase || b)) _
            (reconcile_settled r false) (is_stack_expired r >> reconcile_by_activity r) here
            (λ c.
              bind_done (is_stack_expired r) _ here later b f
              ∙ unless_false (b && s.stack.spec.active) (handle_stack_expiration r)
                  (if not s.stack.spec.active then handle_inactive_stack r else reconcile_active r)
                  later (not_both s.stack.spec.active (is_inactive s.stack.status.phase) b c)
              ∙ sym (bind_done (is_stack_expired r) _ here later b f))
        ∙ sym (bind_done (is_stack_expired r) _ s here b e)

module _ (r : Reconciler) (time : ℕ) (s : State) where
  -- Where the clock stands still from the first test to the second, `Reconcile` does the same without
  -- `handleStackExpiration`: no active stack is deactivated for its age.
  pub reconcile_timed-reconcile_unexpired :
      r.client.clock (read_clock ∷ read_clock ∷ s.log) ≡ r.client.clock (read_clock ∷ s.log)
      → reconcile_timed r time s ≡ reconcile_unexpired r time s
  reconcile_timed-reconcile_unexpired still = by_since (active_since s.stack) refl
    where
      by_since :
          (o : Option ℕ)
          → active_since s.stack ≡ o
          → reconcile_timed r time s ≡ reconcile_unexpired r time s
      by_since none e =
          by_tests r time s false s.log s.log (untimed_test r s e) (untimed_test r s e)
      by_since (some u) e =
          let first = read_clock ∷ s.log in
          by_tests r time s (is_past (r.client.clock first) u) first (read_clock ∷ first)
            (timed_test r s u e)
            (subst
              (λ n.
                is_stack_expired r (record s { log = first })
                ≡ done (is_past n u) (record s { log = read_clock ∷ first }))
              still (timed_test r (record s { log = first }) u e))
