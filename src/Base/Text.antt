-- ===== src/Base/Text.antt =====
-- Texts: Go's strings, as native texts. `concat` is what `fmt.Sprintf` does with `%s` verbs.
use Prim.Native.Nat.{ℕ, zero, suc, ◌+◌, ◌/◌, ◌%◌}
use Prim.Native.Char.{Char}
use Prim.Native.String.{String}
use Prim.Native.String as str
use text.Mathlib.Text
use mathlib.Core.Path.{◌≡◌, refl}
use mathlib.Core.Bool.{Bool, true, false, not, ◌&&◌}
use pishop_operator.Base.Tests.{ltb, if◌then◌else◌}
use mathlib.Core.List.{List, [], ◌∷◌}

abbrev pub concat : List String → String
concat [] = ""
concat (s ∷ l) = str.◌++◌ s (concat l)

abbrev pub str_eq : String → String → Bool
str_eq = Text.◌==◌

-- A character in front of the first of some texts.
abbrev pub push : Char → List String → List String
push c [] = str.◌∷◌ c "" ∷ []
push c (w ∷ ws) = str.◌∷◌ c w ∷ ws

abbrev digit_text : ℕ → String
digit_text d = str.slice "0123456789" d (d + 1)

itoa_from : ℕ → ℕ → String
itoa_from zero n = ""
itoa_from (suc f) n =
    let front = itoa_from f (n / 10) in
    if ltb n 10 then digit_text n else str.◌++◌ front (digit_text (n % 10))

-- `strconv.Itoa`, the verb `%d`: a number has at most as many digits as one more than itself.
unfoldable pub itoa : ℕ → String
unfolding itoa_from
itoa n = itoa_from (n + 1) n

itoa_example : itoa 1205 ≡ "1205"
unfolding itoa
itoa_example = refl

-- Whether a name is in a list, and whether no name is in a list twice.
unfoldable pub holds : String → List String → Bool
holds n [] = false
holds n (m ∷ ms) = if str_eq n m then true else holds n ms

unfoldable pub distinct : List String → Bool
unfolding holds
distinct [] = true
distinct (n ∷ ns) = not (holds n ns) && distinct ns
