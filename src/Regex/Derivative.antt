-- ===== src/Regex/Derivative.antt =====
-- The test by derivatives, against the language.
use Prim.Native.Char.{Char, code}
use Prim.Native.String.{String, ◌++◌, ◌∷◌ as cons}
use text.Mathlib.TextLemmas.{
  nil-append, cons-append, append-eq-nil_iff, nil≢cons, cons≢nil, tail-eq_of_cons-eq,
  head-eq_of_cons-eq,
}
use mathlib.Core.Path.{subst}
use pishop_operator.Base.{
  ◌≡◌, refl, sym, ap, ◌∙◌, Bool, true, false, if◌then◌else◌, ◌⊎◌, inl, inr, ◌↔◌, arith, Bool-cases,
}
use pishop_operator.Regex.{Regex, in_class, nullable, derivative, match_string}
use pishop_operator.Regex.Language.{Matches, done, more, Star-cons, append-cons}

abbrev nil : String
nil = ""

nullable-Matches : (r : Regex) → nullable r ≡ true → Matches r nil
unfolding nullable
nullable-Matches Regex.nothing h = cc
nullable-Matches Regex.empty h = refl
nullable-Matches (Regex.one k) h = cc
nullable-Matches (Regex.seq r t) h = (
  nil,
  (
    nil,
    (sym (nil-append nil), (nullable-Matches r (ground arith), nullable-Matches t (ground arith))),
  ),
)
nullable-Matches (Regex.alt r t) h = elim (Bool-cases (nullable r)) [
  | inl e ↦ inl (nullable-Matches r e)
  | inr e ↦ inr (nullable-Matches t (ground arith))
]
nullable-Matches (Regex.star r) h = done refl

Matches-nullable : (r : Regex) → Matches r nil → nullable r ≡ true
unfolding nullable
Matches-nullable Regex.nothing h = absurd h
Matches-nullable Regex.empty h = refl
Matches-nullable (Regex.one k) (c, (i, e)) = absurd (nil≢cons e)
Matches-nullable (Regex.seq r t) (s, (u, (e, (m, n)))) =
    let both = append-eq-nil_iff.0 (sym e) in
    let left = Matches-nullable r (subst (Matches r) both.0 m) in
    let right = Matches-nullable t (subst (Matches t) both.1 n) in ground arith
Matches-nullable (Regex.alt r t) (inl m) = let left = Matches-nullable r m in ground arith
Matches-nullable (Regex.alt r t) (inr m) = let right = Matches-nullable t m in ground arith
Matches-nullable (Regex.star r) h = refl

derivative-Matches :
    (r : Regex) (c : Char) (w : String) → Matches (derivative c r) w → Matches r (cons c w)
unfolding derivative
derivative-Matches Regex.nothing c w h = absurd h
derivative-Matches Regex.empty c w h = absurd h
derivative-Matches (Regex.one k) c w h = by_test (in_class k (code c)) refl h
  where
    by_test :
        (b : Bool)
        → in_class k (code c) ≡ b
        → Matches (if b then Regex.empty else Regex.nothing) w
        → Matches (Regex.one k) (cons c w)
    by_test true e m = (c, (e, ap (cons c) m))
    by_test false e m = absurd m
derivative-Matches (Regex.seq r t) c w (inl (s, (u, (e, (m, n))))) =
    (cons c s, (u, (ap (cons c) e ∙ sym (cons-append c s u), (derivative-Matches r c s m, n))))
derivative-Matches (Regex.seq r t) c w (inr h) =
    by_test (nullable r) refl (derivative-Matches t c w) h
  where
    by_test :
        (b : Bool)
        → nullable r ≡ b
        → (Matches (derivative c t) w → Matches t (cons c w))
        → Matches (if b then derivative c t else Regex.nothing) w
        → Matches (Regex.seq r t) (cons c w)
    by_test true e ih m = (nil, (cons c w, (sym (nil-append _), (nullable-Matches r e, ih m))))
    by_test false e ih m = absurd m
derivative-Matches (Regex.alt r t) c w (inl m) = inl (derivative-Matches r c w m)
derivative-Matches (Regex.alt r t) c w (inr m) = inr (derivative-Matches t c w m)
derivative-Matches (Regex.star r) c w (s, (u, (e, (m, n)))) =
    more (cons c s) u (ap (cons c) e ∙ sym (cons-append c s u)) (derivative-Matches r c s m) n

Matches-derivative :
    (r : Regex) (c : Char) (w : String) → Matches r (cons c w) → Matches (derivative c r) w
unfolding derivative
Matches-derivative Regex.nothing c w h = absurd h
Matches-derivative Regex.empty c w h = absurd (cons≢nil h)
Matches-derivative (Regex.one k) c w (d, (i, e)) =
    let same : in_class k (code c) ≡ true =
      ap (λ x. in_class k (code x)) (head-eq_of_cons-eq e) ∙ i in
    rw same (tail-eq_of_cons-eq e)
Matches-derivative (Regex.seq r t) c w (s, (u, (e, (m, n)))) =
    by_part (append-cons c w s u e) (λ a. Matches-derivative r c a) (Matches-derivative t c w)
  where
    by_part :
        ((a : String) × ((s ≡ cons c a) × (w ≡ a ++ u))) ⊎ (◌≡◌ {A = String} s "" × (u ≡ cons c w))
        → ((a : String) → Matches r (cons c a) → Matches (derivative c r) a)
        → (Matches t (cons c w) → Matches (derivative c t) w)
        → Matches (derivative c (Regex.seq r t)) w
    by_part (inl (a, (f, g))) ih jh = inl (a, (u, (g, (ih a (subst (Matches r) f m), n))))
    by_part (inr (f, g)) ih jh =
        let here : nullable r ≡ true = Matches-nullable r (subst (Matches r) f m) in
        inr (
          subst (λ b. Matches (if b then derivative c t else Regex.nothing) w) (sym here)
            (jh (subst (Matches t) g n)))
Matches-derivative (Regex.alt r t) c w (inl m) = inl (Matches-derivative r c w m)
Matches-derivative (Regex.alt r t) c w (inr m) = inr (Matches-derivative t c w m)
Matches-derivative (Regex.star r) c w h =
    let (a, (b, (e, (m, k)))) = Star-cons (Matches r) c w (cons c w) h refl in
    (a, (b, (e, (Matches-derivative r c a m, k))))

-- The test says yes to exactly the texts of the expression's language.
pub match_string-Matches : (r : Regex) (w : String) → (match_string r w ≡ true) ↔ Matches r w
unfolding match_string
match_string-Matches r String.[] = (nullable-Matches r, Matches-nullable r)
match_string-Matches r (String.◌∷◌ c w) =
    let (sound, complete) = match_string-Matches (derivative c r) w in
    (λ h. derivative-Matches r c w (sound h), λ m. complete (Matches-derivative r c w m))
