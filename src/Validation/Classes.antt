-- ===== src/Validation/Classes.antt =====
-- Texts of characters of one class, and the patterns of numbers and image tags.
use Prim.Native.Char.{Char, code}
use Prim.Native.String.{String, ◌++◌, ◌∷◌ as cons}
use text.Mathlib.TextLemmas.{nil-append, cons-append, cons≢nil}
use mathlib.Core.Path.{subst}
use pishop_operator.Base.{◌≡◌, ◌≢◌, refl, sym, ap, ◌∙◌, true, ◌↔◌, arith}
use pishop_operator.Naming.Isolation.{AllDigits}
use pishop_operator.Regex.{Regex, Class, in_class, match_string}
use pishop_operator.Regex.Language.{Matches, Star, done, more}
use pishop_operator.Regex.Derivative.{match_string-Matches}
use pishop_operator.Validation.{
  digit, letter_or_digit, tag_character, pr_number_pattern, image_tag_pattern,
}

-- All characters of the text are of the class.
abbrev pub AllIn : Class → String → Type 0
AllIn k String.[] = Unit
AllIn k (String.◌∷◌ c s) = (in_class k (code c) ≡ true) × AllIn k s

-- The text begins with a character of the class.
abbrev pub StartsIn : Class → String → Type 0
StartsIn k String.[] = ⊥
StartsIn k (String.◌∷◌ c s) = in_class k (code c) ≡ true

pub cons_append : (c : Char) (u : String) → cons c "" ++ u ≡ cons c u
cons_append c u = cons-append c "" u ∙ ap (cons c) (nil-append u)

pub Star-AllIn : (k : Class) (w : String) → Star (Matches (Regex.one k)) w → AllIn k w
Star-AllIn k w (done e) = subst (AllIn k) (sym e) tt
Star-AllIn k w (more s u e (c, (i, f)) h) =
    subst (AllIn k) (sym (e ∙ ap (λ t. t ++ u) f ∙ cons_append c u)) (i, Star-AllIn k u h)

pub AllIn-Star : (k : Class) (w : String) → AllIn k w → Star (Matches (Regex.one k)) w
AllIn-Star k String.[] h = done refl
AllIn-Star k (String.◌∷◌ c s) (i, h) =
    more (cons c "") s (sym (cons_append c s)) (c, (i, refl)) (AllIn-Star k s h)

AllIn-digit : (w : String) → AllIn digit w → AllDigits w
unfolding in_class
AllIn-digit String.[] h = tt
AllIn-digit (String.◌∷◌ c s) (i, h) = ((ground arith, ground arith), AllIn-digit s h)

digit-AllIn : (w : String) → AllDigits w → AllIn digit w
unfolding in_class
digit-AllIn String.[] h = tt
digit-AllIn (String.◌∷◌ c s) (i, h) = (ground (arith, i.0, i.1), digit-AllIn s h)

-- `^\d+$` says yes to the texts of digits that are not empty.
pub pr_number_pattern-AllDigits :
    (w : String) → (match_string pr_number_pattern w ≡ true) ↔ ((w ≢ "") × AllDigits w)
unfolding pr_number_pattern
pr_number_pattern-AllDigits w = (
  λ h. there ((match_string-Matches pr_number_pattern w).0 h),
  λ h. (match_string-Matches pr_number_pattern w).1 (back w h.0 h.1),
)
  where
    there : Matches pr_number_pattern w → (w ≢ "") × AllDigits w
    there (s, (u, (e, ((c, (i, f)), m)))) =
        let g : w ≡ cons c u = e ∙ ap (λ t. t ++ u) f ∙ cons_append c u in
        (
          λ n. cons≢nil (sym g ∙ n),
          subst AllDigits (sym g) (AllIn-digit (cons c u) (i, Star-AllIn digit u m)),
        )

    back : (w : String) → w ≢ "" → AllDigits w → Matches pr_number_pattern w
    back String.[] n h = absurd (n refl)
    back (String.◌∷◌ c s) n h =
        let (i, k) = digit-AllIn (cons c s) h in
        (cons c "", (s, (sym (cons_append c s), ((c, (i, refl)), AllIn-Star digit s k))))

-- The pattern of an image tag says yes to a letter or digit with characters of a tag behind it.
pub image_tag_pattern-AllIn :
    (w : String)
    → (match_string image_tag_pattern w ≡ true)
      ↔ (StartsIn letter_or_digit w × AllIn tag_character w)
unfolding image_tag_pattern in_class
image_tag_pattern-AllIn w = (
  λ h. there ((match_string-Matches image_tag_pattern w).0 h),
  λ h. (match_string-Matches image_tag_pattern w).1 (back w h.0 h.1),
)
  where
    is_tag :
        (c : Char)
        → in_class letter_or_digit (code c) ≡ true
        → in_class tag_character (code c) ≡ true
    is_tag c i = ground arith

    there : Matches image_tag_pattern w → StartsIn letter_or_digit w × AllIn tag_character w
    there (s, (u, (e, ((c, (i, f)), m)))) =
        let g : w ≡ cons c u = e ∙ ap (λ t. t ++ u) f ∙ cons_append c u in
        subst (λ t. StartsIn letter_or_digit t × AllIn tag_character t) (sym g)
          (i, (is_tag c i, Star-AllIn tag_character u m))

    back :
        (w : String)
        → StartsIn letter_or_digit w
        → AllIn tag_character w
        → Matches image_tag_pattern w
    back String.[] n h = absurd n
    back (String.◌∷◌ c s) i (j, k) =
        (cons c "", (s, (sym (cons_append c s), ((c, (i, refl)), AllIn-Star tag_character s k))))
