-- ===== src/Regex.antt =====
-- Regular expressions: what `regexp.MatchString` decides for the patterns of
-- controllers/validation.go, all of which are anchored at both ends. A pattern is a tree, a class of
-- characters the ranges of its code points, and the test takes one derivative per character.
pub mod Language
pub mod Derivative
use Prim.Native.Char.{Char, code}
use Prim.Native.String.{String}
use pishop_operator.Base.{
  ℕ, zero, suc, List, [], ◌∷◌, Bool, true, false, ◌&&◌, ◌||◌, leb, if◌then◌else◌,
}

-- The ranges of a class, both ends included.
abbrev pub Class : Type 0
Class = List (ℕ × ℕ)

unfoldable pub in_class : Class → ℕ → Bool
in_class [] c = false
in_class ((low, high) ∷ k) c = (leb low c && leb c high) || in_class k c

pub data Regex : Type 0 where
  nothing : Regex
  empty : Regex
  one : Class → Regex
  seq : Regex → Regex → Regex
  alt : Regex → Regex → Regex
  star : Regex → Regex

-- `r+`, `r?` and `r{0,n}`
abbrev pub plus : Regex → Regex
plus r = Regex.seq r (Regex.star r)

abbrev pub optional : Regex → Regex
optional r = Regex.alt Regex.empty r

unfoldable pub up_to : ℕ → Regex → Regex
up_to zero r = Regex.empty
up_to (suc n) r = optional (Regex.seq r (up_to n r))

unfoldable pub nullable : Regex → Bool
nullable Regex.nothing = false
nullable Regex.empty = true
nullable (Regex.one k) = false
nullable (Regex.seq r t) = nullable r && nullable t
nullable (Regex.alt r t) = nullable r || nullable t
nullable (Regex.star r) = true

-- What may follow a first character.
unfoldable pub derivative : Char → Regex → Regex
derivative c Regex.nothing = Regex.nothing
derivative c Regex.empty = Regex.nothing
derivative c (Regex.one k) = if in_class k (code c) then Regex.empty else Regex.nothing
derivative c (Regex.seq r t) =
    Regex.alt (Regex.seq (derivative c r) t) (if nullable r then derivative c t else Regex.nothing)
derivative c (Regex.alt r t) = Regex.alt (derivative c r) (derivative c t)
derivative c (Regex.star r) = Regex.seq (derivative c r) (Regex.star r)

unfoldable pub match_string : Regex → String → Bool
match_string r String.[] = nullable r
match_string r (String.◌∷◌ c s) = match_string (derivative c r) s
