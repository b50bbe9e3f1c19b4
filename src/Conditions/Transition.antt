-- ===== src/Conditions/Transition.antt =====
-- What a condition list holds after `setCondition`.
use pishop_operator.Base.{
  ℕ, String, List, ◌∷◌, [], Option, none, some, Bool, true, false, ◌≡◌, ◌≢◌, refl, ap,
  if◌then◌else◌, arith, ◌∙◌,
}
use mathlib.Core.Path.{subst}
use text.Mathlib.TextEquality.{eq_iff}
use pishop_operator.Api.{Condition}
use pishop_operator.Client.{State, ◌>>=◌, maybe}
use pishop_operator.Client.Rules.{Ends}
use pishop_operator.Reconciler.{Reconciler, now}
use pishop_operator.Conditions.{
  find_condition, put_condition, is_changed, set_condition, store_condition,
}

-- The condition that was put is the one found of its type.
find_condition-put_condition :
    (c : Condition) (cs : List Condition) → find_condition c.type (put_condition c cs) ≡ some c
unfolding find_condition put_condition
find_condition-put_condition c [] = ground (arith, eq_iff c.type c.type)
find_condition-put_condition c (d ∷ ds) =
    ground (arith, eq_iff c.type c.type, find_condition-put_condition c ds)

-- The condition of any other type is the one before.
find_condition-other :
    (type : String) (c : Condition) (cs : List Condition)
    → type ≢ c.type
    → find_condition type (put_condition c cs) ≡ find_condition type cs
unfolding find_condition put_condition
find_condition-other type c [] ne = ground (arith, eq_iff c.type type)
find_condition-other type c (d ∷ ds) ne = ground (
  arith,
  eq_iff c.type type,
  eq_iff d.type type,
  eq_iff d.type c.type,
  find_condition-other type c ds ne,
)

abbrev conditions_of : State → List Condition
conditions_of s = s.stack.status.conditions

abbrev at_time : ℕ → Condition → Condition
at_time t c = record c { last_transition_time = t }

-- What a condition that is set does to a list of conditions. `stored` and `others`: it is found by
-- its type, with some time, and the conditions of other types are untouched. `steady`: one that had
-- the same status and reason keeps the time of its last transition.
pub record Transition (c : Condition) (before after : List Condition) : Type 0 where
  pub stored : (t : ℕ) × (find_condition c.type after ≡ some (at_time t c))
  pub others :
      (type : String) → type ≢ c.type → find_condition type after ≡ find_condition type before
  pub steady :
      (old : Condition)
      → find_condition c.type before ≡ some old
      → old.status ≡ c.status
      → old.reason ≡ c.reason
      → find_condition c.type after ≡ some (at_time old.last_transition_time c)

is_changed-same :
    (old c : Condition) → old.status ≡ c.status → old.reason ≡ c.reason → is_changed old c ≡ false
is_changed-same old c e f = ground (arith, eq_iff old.status c.status, eq_iff old.reason c.reason)

put-Transition :
    (c : Condition) (t : ℕ) (cs : List Condition)
    → ((old : Condition)
        → find_condition c.type cs ≡ some old
        → old.status ≡ c.status
        → old.reason ≡ c.reason
        → t ≡ old.last_transition_time)
    → Transition c cs (put_condition (at_time t c) cs)
put-Transition c t cs h = record {
  stored = (t, find_condition-put_condition (at_time t c) cs);
  others = λ type ne. find_condition-other type (at_time t c) cs ne;
  steady = λ old e f g.
      find_condition-put_condition (at_time t c) cs ∙ ap (λ n. some (at_time n c)) (h old e f g);
}

module _ (r : Reconciler) (c : Condition) where
  -- Setting a condition replaces the one of its type, or adds it, leaves the others, and moves the
  -- time of the last transition only if the status or the reason changes. It does not panic.
  pub set_condition-Transition :
      (s : State)
      → Ends (λ _ t. Transition c (conditions_of s) (conditions_of t)) (set_condition r c s)
  unfolding set_condition
  set_condition-Transition s = by_old (find_condition c.type (conditions_of s)) refl
    where
      by_change :
          (old : Condition) (b : Bool)
          → find_condition c.type (conditions_of s) ≡ some old
          → is_changed old c ≡ b
          → Ends
              (λ _ t. Transition c (conditions_of s) (conditions_of t))
              ((if b
                  then (now r >>= λ t. store_condition (at_time t c))
                  else store_condition (at_time old.last_transition_time c))
                s)
      by_change old true e changed = put-Transition c _ (conditions_of s) λ x f p q.
          let same : old ≡ x = cc in
          let kept = is_changed-same x c p q in
          let moved = subst (λ (y : Condition). is_changed y c ≡ true) same changed in cc
      by_change old false e changed =
          put-Transition c _ (conditions_of s) λ x f p q.
            let same : old ≡ x = cc in ap (λ (y : Condition). y.last_transition_time) same

      by_old :
          (o : Option Condition)
          → find_condition c.type (conditions_of s) ≡ o
          → Ends
              (λ _ t. Transition c (conditions_of s) (conditions_of t))
              (maybe o
                (store_condition c)
                (λ old.
                  if is_changed old c
                  then (now r >>= λ t. store_condition (at_time t c))
                  else store_condition (at_time old.last_transition_time c))
                s)
      by_old none e = put-Transition c c.last_transition_time (conditions_of s) λ old f. cc
      by_old (some old) e = by_change old (is_changed old c) e refl
