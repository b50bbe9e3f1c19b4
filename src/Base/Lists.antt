-- ===== src/Base/Lists.antt =====
-- Lists measured by native numbers, and predicates on their elements by recursion.
use Prim.Native.Nat.{ℕ, suc, ◌+◌}
use mathlib.Core.Path.{◌≡◌, sym, subst}
use mathlib.Core.Logic.{◌⊎◌, inl, inr}
use mathlib.Core.Bool.{Bool, true, ◌&&◌}
use mathlib.Core.List.{List, [], ◌∷◌, ◌++◌}
use native.Mathlib.Omega.{arith}

module _ {ℓ} {A : Type ℓ} where
  abbrev pub length : List A → ℕ
  length [] = 0
  length (x ∷ xs) = suc (length xs)

  pub length-append : (xs ys : List A) → length (xs ++ ys) ≡ length xs + length ys
  length-append [] ys = omega arith
  length-append (x ∷ xs) ys = omega (arith, length-append xs ys)

abbrev pub All {ℓ κ} : {A : Type ℓ} → (A → Type κ) → List A → Type κ
All P [] = Unit
All P (x ∷ xs) = P x × All P xs

module _ {ℓ κ} {A : Type ℓ} where
  pub All-append : (P : A → Type κ) (xs ys : List A) → All P xs → All P ys → All P (xs ++ ys)
  All-append P [] ys hx hy = hy
  All-append P (x ∷ xs) ys hx hy = (hx.0, All-append P xs ys hx.1 hy)

  pub All-mono : (P Q : A → Type κ) → ((a : A) → P a → Q a) → (xs : List A) → All P xs → All Q xs
  All-mono P Q f [] h = tt
  All-mono P Q f (x ∷ xs) h = (f x h.0, All-mono P Q f xs h.1)

-- Membership, with the place kept.
abbrev pub Elem : {A : Type 0} → A → List A → Type 0
Elem a [] = ⊥
Elem a (x ∷ xs) = (a ≡ x) ⊎ Elem a xs

pub All-Elem {κ} : {A : Type 0} (P : A → Type κ) (xs : List A) (a : A) → All P xs → Elem a xs → P a
All-Elem P [] a h m = absurd m
All-Elem P (x ∷ xs) a h (inl e) = subst P (sym e) h.0
All-Elem P (x ∷ xs) a h (inr m) = All-Elem P xs a h.1 m

-- A test of every pair, for tables that are checked by evaluation.
unfoldable pub every : {A : Type 0} → (A → Bool) → List A → Bool
every f [] = true
every f (x ∷ xs) = f x && every f xs

pub every-All :
    {A : Type 0} (f : A → Bool) (xs : List A) → every f xs ≡ true → All (λ x. f x ≡ true) xs
unfolding every
every-All f [] h = tt
every-All f (x ∷ xs) h = (ground arith, every-All f xs (ground arith))

unfoldable pub every_pair : {A : Type 0} → (A → A → Bool) → List A → Bool
unfolding every
every_pair f xs = every (λ x. every (f x) xs) xs

pub every_pair-Elem :
    {A : Type 0} (f : A → A → Bool) (xs : List A) (a b : A)
    → every_pair f xs ≡ true
    → Elem a xs
    → Elem b xs
    → f a b ≡ true
unfolding every_pair
every_pair-Elem f xs a b h ma mb =
    let row =
      All-Elem (λ x. every (f x) xs ≡ true) xs a (every-All (λ x. every (f x) xs) xs h) ma in
    All-Elem (λ x. f a x ≡ true) xs b (every-All (f a) xs row) mb
