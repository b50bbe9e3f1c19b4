-- ===== src/Validation/Bounds.antt =====
-- The names made of a number that `validatePRNumber` accepts: namespaces and databases.
use Prim.Native.Char.{Char}
use Prim.Native.String.{String, len, ◌++◌, ◌∷◌ as cons}
use text.Mathlib.TextPositions.{len-append}
use text.Mathlib.TextLemmas.{nil-append, cons-append, append-nil}
use mathlib.Core.Path.{subst}
use pishop_operator.Base.{
  ◌∷◌, [], none, true, ◌≡◌, refl, sym, ap, ◌∙◌, arith, ◌≤◌, ◌+◌, concat, Elem, All-Elem, every,
  every-All, leb,
}
use pishop_operator.Naming.{default_services, database_base, get_namespace_name, get_database_name}
use pishop_operator.Naming.Isolation.{AllDigits}
use pishop_operator.Regex.{Class, in_class}
use pishop_operator.Validation.{validate_pr_number}
use pishop_operator.Validation.Classes.{AllIn, StartsIn}
use pishop_operator.Validation.Domain.{EndsIn}
use pishop_operator.Validation.Parts.{IsNumber-accepts}

abbrev pub lower_or_digit : Class
lower_or_digit = (b'a', b'z') ∷ (b'0', b'9') ∷ []

abbrev pub dns_character : Class
dns_character = (b'a', b'z') ∷ (b'0', b'9') ∷ (b'-', b'-') ∷ []

-- A label as RFC 1123 has it, which Kubernetes asks of a namespace's name: lower-case letters, digits and
-- dashes, 63 at most, with no dash at either end.
pub record IsDnsLabel (s : String) : Type 0 where
  pub starts : StartsIn lower_or_digit s
  pub ends : EndsIn lower_or_digit s
  pub characters : AllIn dns_character s
  pub bounded : len s ≤ 63

AllIn-append : (k : Class) (s t : String) → AllIn k s → AllIn k t → AllIn k (s ++ t)
AllIn-append k String.[] t h i = subst (AllIn k) (sym (nil-append t)) i
AllIn-append k (String.◌∷◌ c s) t (h, hs) i =
    subst (AllIn k) (sym (cons-append c s t)) (h, AllIn-append k s t hs i)

StartsIn-append : (k : Class) (s t : String) → StartsIn k s → StartsIn k (s ++ t)
StartsIn-append k String.[] t h = absurd h
StartsIn-append k (String.◌∷◌ c s) t h = subst (StartsIn k) (sym (cons-append c s t)) h

EndsIn-cons : (k : Class) (c : Char) (t : String) → EndsIn k t → EndsIn k (cons c t)
EndsIn-cons k c String.[] h = absurd h
EndsIn-cons k c (String.◌∷◌ d t) h = h

EndsIn-append : (k : Class) (s t : String) → EndsIn k t → EndsIn k (s ++ t)
EndsIn-append k String.[] t h = subst (EndsIn k) (sym (nil-append t)) h
EndsIn-append k (String.◌∷◌ c s) t h =
    subst (EndsIn k) (sym (cons-append c s t)) (EndsIn-cons k c (s ++ t) (EndsIn-append k s t h))

AllDigits-AllIn : (s : String) → AllDigits s → AllIn dns_character s
unfolding in_class
AllDigits-AllIn String.[] h = tt
AllDigits-AllIn (String.◌∷◌ c s) (h, hs) = (ground arith, AllDigits-AllIn s hs)

len-form : (a n z : String) → len (concat (a ∷ n ∷ z ∷ [])) ≡ len a + (len n + len z)
len-form a n z =
    len-append a (n ++ (z ++ ""))
    ∙ ap (λ k. len a + k) (len-append n (z ++ "") ∙ ap (λ t. len n + len t) (append-nil z))

namespace-IsDnsLabel : (n : String) → AllDigits n → len n ≤ 10 → IsDnsLabel (get_namespace_name n)
unfolding get_namespace_name in_class
namespace-IsDnsLabel n digits short =
    let rest = n ++ ("-shop-pilab-hu" ++ "") in
    let bytes = len-form "pr-" n "-shop-pilab-hu" in
    record {
      starts = StartsIn-append lower_or_digit "pr-" rest refl;
      ends = EndsIn-append lower_or_digit "pr-" rest (EndsIn-append lower_or_digit n _ refl);
      characters =
          AllIn-append dns_character "pr-" rest (refl, (refl, (refl, tt)))
            (AllIn-append dns_character n _ (AllDigits-AllIn n digits) suffix_characters);
      bounded = omega arith;
    }
  where
    suffix_characters : AllIn dns_character "-shop-pilab-hu"
    suffix_characters = (
      refl,
      (
        refl,
        (
          refl,
          (
            refl,
            (refl, (refl, (refl, (refl, (refl, (refl, (refl, (refl, (refl, (refl, tt)))))))))),
          ),
        ),
      ),
    )

namespace_len : (n : String) → len n ≤ 10 → len (get_namespace_name n) ≤ 27
unfolding get_namespace_name
namespace_len n short = let bytes = len-form "pr-" n "-shop-pilab-hu" in omega arith

short_bases : every (λ s. leb (len (database_base s)) 12) default_services ≡ true
unfolding database_base every
short_bases = refl

database_len :
    (service n : String)
    → Elem service default_services
    → len n ≤ 10
    → len (get_database_name service n) ≤ 33
unfolding get_database_name
database_len service n h short =
    let base =
      All-Elem (λ s. leb (len (database_base s)) 12 ≡ true) default_services service
        (every-All _ default_services short_bases) h in
    let bytes : len (concat ("pishop_" ∷ database_base service ∷ "_pr_" ∷ n ∷ []))
        ≡ 7 + (len (database_base service) + (4 + len n)) =
      len-append "pishop_" _ ∙ ap (λ k. 7 + k) (len-form (database_base service) "_pr_" n) in
    ground arith

-- For a number that is accepted, the namespace is a label as RFC 1123 has it, of lower-case letters,
-- digits and dashes, with no dash at either end. It has at most 27 bytes, and the database of every
-- default service at most 33, where 63 are allowed for each.
pub validate_pr_number-IsDnsLabel :
    (n : String)
    → validate_pr_number n ≡ none
    → IsDnsLabel (get_namespace_name n)
      × (len (get_namespace_name n) ≤ 27)
      × ((service : String)
          → Elem service default_services
          → len (get_database_name service n) ≤ 33)
validate_pr_number-IsDnsLabel n h =
    let (_, (digits, short)) = (IsNumber-accepts n).0 h in
    (
      namespace-IsDnsLabel n digits short,
      namespace_len n short,
      λ service m. database_len service n m short,
    )
