-- ===== src/Naming/Isolation.antt =====
-- Injectivity of the name builders, in the number of the pull request.
use Prim.Native.Char.{Char, code}
use Prim.Native.String.{String, ◌++◌, ◌∷◌ as cons}
use text.Mathlib.TextLemmas.{
  nil-append, cons-append, append-nil, append_assoc, append_cancel_left, append_cancel_right,
  head-eq_of_cons-eq, tail-eq_of_cons-eq,
}
use pishop_operator.Base.{concat, ◌∷◌, [], ◌≤◌, ◌≡◌, refl, sym, ap, ◌∙◌, arith}
use mathlib.Core.Path.{ap₂, subst}
use pishop_operator.Naming.{
  get_namespace_name, database_base, get_database_name, cleanup_database_name, pr_user,
  subject_prefix, key_prefix,
}

abbrev pub IsDigit : Char → Type 0
IsDigit c = (48 ≤ code c) × (code c ≤ 57)

abbrev pub AllDigits : String → Type 0
AllDigits String.[] = Unit
AllDigits (String.◌∷◌ c s) = IsDigit c × AllDigits s

abbrev underscore : Char
underscore = "_"

not-AllDigits-underscore : (s t : String) → ¬ AllDigits (s ++ cons underscore t)
not-AllDigits-underscore String.[] t h =
    let h' : AllDigits (cons underscore t) = subst AllDigits (nil-append (cons underscore t)) h in
    absurd (omega arith)
not-AllDigits-underscore (String.◌∷◌ c s) t h =
    let h' : AllDigits (cons c (s ++ cons underscore t)) =
      subst AllDigits (cons-append c s (cons underscore t)) h in
    not-AllDigits-underscore s t h'.1

-- The digits behind the last underscore, and what stands before it, are determined.
underscore_split :
    (x y p q : String)
    → AllDigits p
    → AllDigits q
    → x ++ cons underscore p ≡ y ++ cons underscore q
    → (x ≡ y) × (p ≡ q)
underscore_split String.[] String.[] p q hp hq e =
    (refl, tail-eq_of_cons-eq (sym (nil-append _) ∙ e ∙ nil-append _))
underscore_split String.[] (String.◌∷◌ d y) p q hp hq e =
    let e' : p ≡ y ++ cons underscore q =
      tail-eq_of_cons-eq (sym (nil-append _) ∙ e ∙ cons-append _ _ _) in
    absurd (not-AllDigits-underscore y q (subst AllDigits e' hp))
underscore_split (String.◌∷◌ c x) String.[] p q hp hq e =
    let e' : x ++ cons underscore p ≡ q =
      tail-eq_of_cons-eq (sym (cons-append _ _ _) ∙ e ∙ nil-append _) in
    absurd (not-AllDigits-underscore x p (subst AllDigits (sym e') hq))
underscore_split (String.◌∷◌ c x) (String.◌∷◌ d y) p q hp hq e =
    let e' : cons c (x ++ cons underscore p) ≡ cons d (y ++ cons underscore q) =
      sym (cons-append _ _ _) ∙ e ∙ cons-append _ _ _ in
    let (same, digits) = underscore_split x y p q hp hq (tail-eq_of_cons-eq e') in
    (ap₂ cons (head-eq_of_cons-eq e') same, digits)

-- The form of every database name, with its last underscore brought out.
database_form :
    (base pr_number : String)
    → concat ("pishop_" ∷ base ∷ "_pr_" ∷ pr_number ∷ [])
      ≡ "pishop_" ++ ((base ++ "_pr") ++ cons underscore pr_number)
database_form base p =
    simp (append-nil, append_assoc) (ap (λ t. "pishop_" ++ (base ++ t)) (cons_form p))
  where
    cons_form : (t : String) → "_pr_" ++ t ≡ "_pr" ++ cons underscore t
    cons_form t =
        append_assoc "_pr" "_" t
        ∙ ap (λ u. "_pr" ++ u) (cons-append underscore "" t ∙ ap (cons underscore) (nil-append t))

-- A name of that form determines its base and its number, if both numbers are digits.
pub database_form_inj :
    (a b p q : String)
    → AllDigits p
    → AllDigits q
    → concat ("pishop_" ∷ a ∷ "_pr_" ∷ p ∷ []) ≡ concat ("pishop_" ∷ b ∷ "_pr_" ∷ q ∷ [])
    → (a ≡ b) × (p ≡ q)
database_form_inj a b p q hp hq e =
    let e' = append_cancel_left "pishop_" _ _ (sym (database_form a p) ∙ e ∙ database_form b q) in
    let (bases, numbers) = underscore_split (a ++ "_pr") (b ++ "_pr") p q hp hq e' in
    (append_cancel_right a b "_pr" bases, numbers)

-- The names of two pull requests' namespaces differ.
pub get_namespace_name-inj : (p q : String) → get_namespace_name p ≡ get_namespace_name q → p ≡ q
unfolding get_namespace_name
get_namespace_name-inj p q e = append_cancel_right p q _ (append_cancel_left "pr-" _ _ e)

pub pr_user-inj : (p q : String) → pr_user p ≡ pr_user q → p ≡ q
unfolding pr_user
pr_user-inj p q e = append_cancel_right p q _ (append_cancel_left "pishop_pr_" _ _ e)

pub key_prefix-inj : (p q : String) → key_prefix p ≡ key_prefix q → p ≡ q
unfolding key_prefix
key_prefix-inj p q e = append_cancel_right p q _ (append_cancel_left "pishop:pr:" _ _ e)

pub subject_prefix-inj : (p q : String) → subject_prefix p ≡ subject_prefix q → p ≡ q
unfolding subject_prefix
subject_prefix-inj p q e = append_cancel_right p q _ (append_cancel_left "pishop.pr." _ _ e)

pub get_database_name-inj :
    (s t p q : String)
    → AllDigits p
    → AllDigits q
    → get_database_name s p ≡ get_database_name t q
    → (database_base s ≡ database_base t) × (p ≡ q)
unfolding get_database_name
get_database_name-inj s t p q hp hq e =
    database_form_inj (database_base s) (database_base t) p q hp hq e

-- The name that the cleanup drops for one service is a name that was created only where the
-- service's full name equals the shortened name of the other.
pub cleanup_database_name-eq :
    (s t p q : String)
    → AllDigits p
    → AllDigits q
    → cleanup_database_name s p ≡ get_database_name t q
    → (s ≡ database_base t) × (p ≡ q)
unfolding cleanup_database_name get_database_name
cleanup_database_name-eq s t p q hp hq e = database_form_inj s (database_base t) p q hp hq e
