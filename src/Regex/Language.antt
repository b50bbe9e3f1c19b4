-- ===== src/Regex/Language.antt =====
-- The texts that a regular expression stands for.
use Prim.Native.Char.{Char, code}
use Prim.Native.String.{String, ◌++◌, ◌∷◌ as cons}
use text.Mathlib.TextLemmas.{
  nil-append, cons-append, tail-eq_of_cons-eq, head-eq_of_cons-eq, nil≢cons,
}
use pishop_operator.Base.{◌≡◌, refl, sym, ap, ◌∙◌, true, ◌⊎◌, inl, inr}
use mathlib.Core.Path.{subst}
use pishop_operator.Regex.{Regex, in_class}

-- A text in parts that all satisfy a predicate.
pub data Star (P : String → Type 0) : String → Type 0 where
  done : {w : String} → ◌≡◌ {A = String} w "" → Star P w
  more : {w : String} (s u : String) → w ≡ s ++ u → P s → Star P u → Star P w

abbrev pub Matches : Regex → String → Type 0
Matches Regex.nothing w = ⊥
Matches Regex.empty w = ◌≡◌ {A = String} w ""
Matches (Regex.one k) w = (c : Char) × ((in_class k (code c) ≡ true) × (w ≡ cons c ""))
Matches (Regex.seq r t) w =
    (s : String) × ((u : String) × ((w ≡ s ++ u) × (Matches r s × Matches t u)))
Matches (Regex.alt r t) w = Matches r w ⊎ Matches t w
Matches (Regex.star r) w = Star (Matches r) w

pub Star-subst : (P : String → Type 0) (w v : String) → w ≡ v → Star P w → Star P v
Star-subst P w v e h = subst (Star P) e h

-- A first character comes from the first part that is not empty.
pub Star-cons :
    (P : String → Type 0) (c : Char) (s w : String)
    → Star P w
    → w ≡ cons c s
    → (a : String) × ((b : String) × ((s ≡ a ++ b) × (P (cons c a) × Star P b)))
Star-cons P c s w (done e) f = absurd (nil≢cons (sym e ∙ f))
Star-cons P c s w (more String.[] u e p k) f = Star-cons P c s u k (sym (nil-append u) ∙ sym e ∙ f)
Star-cons P c s w (more (String.◌∷◌ d a) u e p k) f =
    let g : cons d (a ++ u) ≡ cons c s = sym (cons-append d a u) ∙ sym e ∙ f in
    (a, (u, (sym (tail-eq_of_cons-eq g), (subst (λ x. P (cons x a)) (head-eq_of_cons-eq g) p, k))))

-- Parts of a sequence before a first character: it is in the first part, or that part is empty.
pub append-cons :
    (c : Char) (w s u : String)
    → cons c w ≡ s ++ u
    → ((a : String) × ((s ≡ cons c a) × (w ≡ a ++ u))) ⊎ (◌≡◌ {A = String} s "" × (u ≡ cons c w))
append-cons c w String.[] u e = inr (refl, sym (e ∙ nil-append u))
append-cons c w (String.◌∷◌ d a) u e =
    let g : cons c w ≡ cons d (a ++ u) = e ∙ cons-append d a u in
    inl (a, (ap (λ x. cons x a) (sym (head-eq_of_cons-eq g)), tail-eq_of_cons-eq g))
