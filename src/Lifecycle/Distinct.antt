-- ===== src/Lifecycle/Distinct.antt =====
-- The types in the condition list of a status, at the end of `handleDeployment`.
use mathlib.Core.Path.{subst}
use text.Mathlib.TextEquality.{eq_iff}
use pishop_operator.Base.{
  ℕ, String, List, ◌∷◌, [], Option, none, some, Bool, true, false, not, ◌&&◌, ◌≡◌, ◌≢◌, refl, map,
  holds, distinct, str_eq, if◌then◌else◌, arith,
}
use pishop_operator.Api.{PrStack, Phase, Condition}
use pishop_operator.Client.{Call, State, Go, ◌>>=◌, pure, maybe, record_call, get_object}
use pishop_operator.Client.Rules.{Ends, Ends-bind}
use pishop_operator.Reconciler.{Reconciler, set_phase}
use pishop_operator.Conditions.{
  put_condition, store_condition, set_condition, set_condition_now, set_ready_condition,
  set_progressing_condition,
}
use pishop_operator.Lifecycle.Deploy.{conclude, all_failed, some_failed, none_failed}

abbrev types : List Condition → List String
types = map λ (c : Condition). c.type

-- No two conditions have one type.
abbrev pub HasDistinctTypes : List Condition → Type 0
HasDistinctTypes cs = distinct (types cs) ≡ true

holds-put_condition :
    (n : String) (c : Condition) (cs : List Condition)
    → n ≢ c.type
    → holds n (types (put_condition c cs)) ≡ holds n (types cs)
unfolding holds put_condition
holds-put_condition n c [] ne = ground (arith, eq_iff n c.type)
holds-put_condition n c (d ∷ ds) ne =
    ground
      (arith, eq_iff n c.type, eq_iff d.type c.type, eq_iff n d.type, holds-put_condition n c ds ne)

put_condition-HasDistinctTypes :
    (c : Condition) (cs : List Condition)
    → HasDistinctTypes cs
    → HasDistinctTypes (put_condition c cs)
unfolding holds distinct put_condition
put_condition-HasDistinctTypes c [] h = refl
put_condition-HasDistinctTypes c (d ∷ ds) h =
    by_type (str_eq d.type c.type) refl (put_condition-HasDistinctTypes c ds (ground arith))
  where
    by_type :
        (b : Bool)
        → str_eq d.type c.type ≡ b
        → HasDistinctTypes (put_condition c ds)
        → HasDistinctTypes (if b then c ∷ ds else d ∷ put_condition c ds)
    by_type true e ih =
        subst (λ n. (not (holds n (types ds)) && distinct (types ds)) ≡ true)
          ((eq_iff d.type c.type).0 e) h
    by_type false e ih =
        let ne : d.type ≢ c.type = ground (arith, eq_iff d.type c.type) in
        let held = holds-put_condition d.type c ds ne in ground arith

-- The method keeps the types of the conditions apart.
pub record Tidy {ℓ} {A : Type ℓ} (m : Go A) : Type 0 where
  pub run :
      (s : State)
      → HasDistinctTypes s.stack.status.conditions
      → Ends (λ _ t. HasDistinctTypes t.stack.status.conditions) (m s)

Tidy-pure {ℓ} : {A : Type ℓ} (a : A) → Tidy (pure a)
Tidy-pure a = record { run = λ s h. h }

Tidy-bind {ℓ κ} :
    {A : Type ℓ} {B : Type κ} (m : Go A) (f : A → Go B)
    → Tidy m
    → ((a : A) → Tidy (f a))
    → Tidy (m >>= f)
Tidy-bind m f h k = record { run = λ s p. Ends-bind _ _ m f s (h.run s p) λ a t q. (k a).run t q }

Tidy-maybe {ℓ} :
    {A : Type 0} {B : Type ℓ} (o : Option A) (absent : Go B) (present : A → Go B)
    → Tidy absent
    → ((a : A) → Tidy (present a))
    → Tidy (maybe o absent present)
Tidy-maybe none absent present h k = h
Tidy-maybe (some a) absent present h k = k a

Tidy-if {ℓ} : {B : Type ℓ} (b : Bool) (m k : Go B) → Tidy m → Tidy k → Tidy (if b then m else k)
Tidy-if true m k h h' = h
Tidy-if false m k h h' = h'

Tidy-get {ℓ} :
    {A : Type ℓ} (f : PrStack → Go A) → ((x : PrStack) → Tidy (f x)) → Tidy (get_object >>= f)
Tidy-get f h = record { run = λ s. (h s.stack).run s }

Tidy-record : (c : Call) → Tidy (record_call c)
Tidy-record c = record { run = λ s h. h }

Tidy-phase : (p : Phase) (message : String) → Tidy (set_phase p message)
Tidy-phase p message = record { run = λ s h. h }

Tidy-store : (c : Condition) → Tidy (store_condition c)
Tidy-store c = record { run = λ s h. put_condition-HasDistinctTypes c s.stack.status.conditions h }

ruleset tidy =
    (Tidy-pure, Tidy-maybe, Tidy-if, Tidy-get, Tidy-record, Tidy-phase, Tidy-store, Tidy-bind)

module _ (r : Reconciler) where
  set_condition_now-Tidy :
      (type status reason message : String) → Tidy (set_condition_now r type status reason message)
  unfolding set_condition_now set_condition
  set_condition_now-Tidy type status reason message = search tidy depth 10

  conclude-Tidy :
      (number : String) (failures total reported : ℕ)
      → Tidy (conclude r number failures total reported)
  unfolding conclude all_failed some_failed none_failed set_ready_condition
      set_progressing_condition
  conclude-Tidy number failures total reported = search (tidy, set_condition_now-Tidy) depth 14

  -- However many services failed, the end of a deployment does not panic, and if no two conditions had
  -- one type before it, no two have one after it.
  pub conclude-HasDistinctTypes :
      (number : String) (failures total reported : ℕ) (s : State)
      → HasDistinctTypes s.stack.status.conditions
      → Ends
          (λ _ t. HasDistinctTypes t.stack.status.conditions)
          (conclude r number failures total reported s)
  conclude-HasDistinctTypes number failures total reported =
      (conclude-Tidy number failures total reported).run
