-- ===== src/Validation/Domain.antt =====
-- The pattern of a custom domain, against labels joined by dots.
use Prim.Native.Char.{Char, code}
use Prim.Native.String.{String, ◌++◌, ◌∷◌ as cons}
use text.Mathlib.TextLemmas.{nil-append, cons-append, append-nil, append-eq-nil_iff}
use text.Mathlib.TextEquality.{Char-path}
use mathlib.Core.Path.{subst}
use pishop_operator.Base.{
  ℕ, zero, suc, List, [], ◌∷◌, ◌≡◌, ◌≢◌, refl, sym, ap, ◌∙◌, true, ◌↔◌, arith, ◌≤◌, inl, inr, All,
}
use pishop_operator.Regex.{Regex, Class, in_class, up_to, match_string}
use pishop_operator.Regex.Language.{Matches, Star, done, more}
use pishop_operator.Regex.Derivative.{match_string-Matches}
use pishop_operator.Stack.Secrets.{join}
use pishop_operator.Validation.{
  letter_or_digit, label_character, dot, label_pattern, domain_pattern,
}
use pishop_operator.Validation.Classes.{AllIn, StartsIn, cons_append}

abbrev pub size : String → ℕ
size String.[] = 0
size (String.◌∷◌ c s) = suc (size s)

-- The text ends with a character of the class.
abbrev pub EndsIn : Class → String → Type 0
EndsIn k String.[] = ⊥
EndsIn k (String.◌∷◌ c String.[]) = in_class k (code c) ≡ true
EndsIn k (String.◌∷◌ c (String.◌∷◌ d s)) = EndsIn k (String.◌∷◌ d s)

-- A label of a domain: letters, digits and dashes, at most 63 of them, with no dash at either end.
pub record IsLabel (s : String) : Type 0 where
  pub starts : StartsIn letter_or_digit s
  pub ends : EndsIn letter_or_digit s
  pub characters : AllIn label_character s
  pub bounded : size s ≤ 63

-- A domain: one label or more, with dots between them.
pub record IsDomain (w : String) : Type 0 where
  pub first : String
  pub others : List String
  pub first_label : IsLabel first
  pub other_labels : All IsLabel others
  pub joined : w ≡ join "." (first ∷ others)

up_to-AllIn :
    (n : ℕ) (k : Class) (w : String) → Matches (up_to n (Regex.one k)) w → AllIn k w × (size w ≤ n)
unfolding up_to
up_to-AllIn zero k w e = subst (λ t. AllIn k t × (size t ≤ 0)) (sym e) (tt, omega arith)
up_to-AllIn (suc n) k w (inl e) =
    subst (λ t. AllIn k t × (size t ≤ suc n)) (sym e) (tt, omega arith)
up_to-AllIn (suc n) k w (inr (s, (u, (e, ((c, (i, f)), m))))) =
    let (all, few) = up_to-AllIn n k u m in
    subst (λ t. AllIn k t × (size t ≤ suc n)) (sym (e ∙ ap (λ t. t ++ u) f ∙ cons_append c u))
      ((i, all), omega arith)

AllIn-up_to :
    (n : ℕ) (k : Class) (w : String) → AllIn k w → size w ≤ n → Matches (up_to n (Regex.one k)) w
unfolding up_to
AllIn-up_to zero k String.[] h few = refl
AllIn-up_to zero k (String.◌∷◌ c s) h few = absurd (omega arith)
AllIn-up_to (suc n) k String.[] h few = inl refl
AllIn-up_to (suc n) k (String.◌∷◌ c s) (i, h) few =
    inr
      (cons c "", (s, (sym (cons_append c s), ((c, (i, refl)), AllIn-up_to n k s h (omega arith)))))

-- A text with one character more at its end.
snoc_lem :
    (s : String) (d c : Char)
    → AllIn label_character s
    → in_class letter_or_digit (code d) ≡ true
    → in_class label_character (code d) ≡ true
    → AllIn label_character (s ++ cons d "")
      × (EndsIn letter_or_digit (cons c (s ++ cons d "")) × (size (s ++ cons d "") ≡ suc (size s)))
snoc_lem String.[] d c h i j =
    subst (λ t. AllIn label_character t × (EndsIn letter_or_digit (cons c t) × (size t ≡ 1)))
      (sym (nil-append _)) ((j, tt), (i, refl))
snoc_lem (String.◌∷◌ e s) d c (k, h) i j =
    let (all, (ends, count)) = snoc_lem s d e h i j in
    subst
      (λ t.
        AllIn label_character t
        × (EndsIn letter_or_digit (cons c t) × (size t ≡ suc (suc (size s)))))
      (sym (cons-append e s _)) ((k, all), (ends, ap suc count))

-- A text that ends in a letter or digit, with that character apart.
unsnoc_lem :
    (c : Char) (s : String)
    → AllIn label_character (cons c s)
    → EndsIn letter_or_digit (cons c s)
    → (a : String) × ((d : Char) × ((cons c s ≡ a ++ cons d "")
          × ((in_class letter_or_digit (code d) ≡ true)
              × (AllIn label_character a × (suc (size a) ≡ suc (size s))))))
unsnoc_lem c String.[] h i = ("", (c, (sym (nil-append _), (i, (tt, refl)))))
unsnoc_lem c (String.◌∷◌ e s) (k, h) i =
    let (a, (d, (p, (j, (all, count))))) = unsnoc_lem e s h i in
    (cons c a, (d, (ap (cons c) p ∙ sym (cons-append c a _), (j, ((k, all), ap suc count)))))

is_label_character :
    (c : Char) → in_class letter_or_digit (code c) ≡ true → in_class label_character (code c) ≡ true
unfolding in_class
is_label_character c i = ground arith

label_pattern-IsLabel : (w : String) → Matches label_pattern w → IsLabel w
unfolding label_pattern
label_pattern-IsLabel w (s, (u, (e, ((c, (i, f)), inl n)))) =
    subst IsLabel (sym (e ∙ ap (λ t. t ++ u) f ∙ cons_append c u ∙ ap (cons c) n)) (record {
      starts = i;
      ends = i;
      characters = (is_label_character c i, tt);
      bounded = omega arith;
    })
label_pattern-IsLabel w (s, (u, (e, ((c, (i, f)), inr (a, (b, (g, (m, (d, (j, h)))))))))) =
    let (all, few) = up_to-AllIn 61 label_character a m in
    let (inside, (ends, count)) = snoc_lem a d c all j (is_label_character d j) in
    subst IsLabel
      (sym (e ∙ ap (λ t. t ++ u) f ∙ cons_append c u ∙ ap (cons c) (g ∙ ap (λ t. a ++ t) h)))
      (record {
        starts = i;
        ends = ends;
        characters = (is_label_character c i, inside);
        bounded = omega arith;
      })

IsLabel-label_pattern : (w : String) → IsLabel w → Matches label_pattern w
IsLabel-label_pattern String.[] h = absurd h.starts
IsLabel-label_pattern (String.◌∷◌ c String.[]) h =
    unfold label_pattern in
    (cons c "", ("", (sym (cons_append c ""), ((c, (h.starts, refl)), inl refl))))
IsLabel-label_pattern (String.◌∷◌ c (String.◌∷◌ e s)) h =
    let (a, (d, (p, (j, (all, count))))) = unsnoc_lem e s h.characters.1 h.ends in
    let few : size a ≤ 61 = omega (arith, h.bounded) in
    let inside = AllIn-up_to 61 label_character a all few in
    unfold label_pattern in
    (
      cons c "",
      (
        cons e s,
        (
          sym (cons_append c _),
          ((c, (h.starts, refl)), inr (a, (cons d "", (p, (inside, (d, (j, refl))))))),
        ),
      ),
    )

abbrev point : Char
point = "."

-- Labels behind a dot each.
dotted : List String → String
dotted [] = ""
dotted (l ∷ ls) = cons point (l ++ dotted ls)

join-dotted : (l : String) (ls : List String) → join "." (l ∷ ls) ≡ l ++ dotted ls
unfolding join dotted
join-dotted l [] = sym (append-nil l)
join-dotted l (m ∷ ms) =
    ap (λ t. l ++ t)
      (cons_append point (join "." (m ∷ ms) ++ "")
        ∙ ap (cons point) (append-nil _ ∙ join-dotted m ms))

is_point : (c : Char) → in_class dot (code c) ≡ true → c ≡ point
unfolding in_class
is_point c i = Char-path c point (ground arith)

Star-dotted :
    (w : String)
    → Star (Matches (Regex.seq (Regex.one dot) label_pattern)) w
    → (ls : List String) × (All IsLabel ls × (w ≡ dotted ls))
unfolding dotted
Star-dotted w (done e) = ([], (tt, e))
Star-dotted w (more s u e (a, (b, (f, ((c, (i, g)), m)))) k) =
    let (ls, (all, p)) = Star-dotted u k in
    let here : s ≡ cons point b =
      f ∙ ap (λ t. t ++ b) g ∙ cons_append c b ∙ ap (λ x. cons x b) (is_point c i) in
    (
      b ∷ ls,
      (
        (label_pattern-IsLabel b m, all),
        e ∙ ap (λ t. t ++ u) here ∙ cons-append point b u ∙ ap (λ t. cons point (b ++ t)) p,
      ),
    )

dotted-Star :
    (ls : List String)
    → All IsLabel ls
    → Star (Matches (Regex.seq (Regex.one dot) label_pattern)) (dotted ls)
unfolding dotted in_class
dotted-Star [] h = done refl
dotted-Star (l ∷ ls) (h, hs) =
    more (cons point l) (dotted ls) (sym (cons-append point l _))
      (
        cons point "",
        (l, (sym (cons_append point l), ((point, (refl, refl)), IsLabel-label_pattern l h))),
      )
      (dotted-Star ls hs)

-- The pattern of a domain says yes to exactly the labels that are joined by dots.
pub domain_pattern-IsDomain : (w : String) → (match_string domain_pattern w ≡ true) ↔ IsDomain w
unfolding domain_pattern
domain_pattern-IsDomain w = (
  λ h. there ((match_string-Matches domain_pattern w).0 h),
  λ h. (match_string-Matches domain_pattern w).1 (back h),
)
  where
    there : Matches domain_pattern w → IsDomain w
    there (s, (u, (e, (m, k)))) =
        let (ls, (all, p)) = Star-dotted u k in
        record {
          first = s;
          others = ls;
          first_label = label_pattern-IsLabel s m;
          other_labels = all;
          joined = e ∙ ap (λ t. s ++ t) p ∙ sym (join-dotted s ls);
        }

    back : IsDomain w → Matches domain_pattern w
    back h = (
      h.first,
      (
        dotted h.others,
        (
          h.joined ∙ join-dotted h.first h.others,
          (IsLabel-label_pattern h.first h.first_label, dotted-Star h.others h.other_labels),
        ),
      ),
    )

pub IsDomain-nonempty : (w : String) → IsDomain w → w ≢ ""
IsDomain-nonempty w h e =
    let both = append-eq-nil_iff.0 (sym (join-dotted h.first h.others) ∙ sym h.joined ∙ e) in
    subst (StartsIn letter_or_digit) both.0 h.first_label.starts
