-- ===== src/Base/Texts.antt =====
-- Texts as lists of code points, for the code that walks them.
use Prim.Native.Nat.{ℕ, zero, suc, ◌+◌, ◌/◌, ◌%◌}
use Prim.Native.Char.{code}
use Prim.Native.String.{String, ◌++◌ as text_append}
use mathlib.Core.Bool.{Bool, true, false, ◌&&◌, ◌||◌}
use mathlib.Core.List.{List, [], ◌∷◌}
use text.Mathlib.Text.{◌==◌ as text_eq}
use dag_doctor.Base.Tests.{◌==◌}

abbrev pub Text : Type 0
Text = List ℕ

-- The code points of a text.
abbrev pub codes : String → Text
codes String.[] = []
codes (String.◌∷◌ c s) = code c ∷ codes s

abbrev pub str_eq : String → String → Bool
str_eq a b = text_eq a b

-- The concatenation of strings.
infixr 65 ◌+++◌
abbrev pub ◌+++◌ : String → String → String
a +++ b = text_append a b

-- `sep.join(xs)`
abbrev pub join : String → List String → String
join sep [] = ""
join sep (x ∷ []) = x
join sep (x ∷ y ∷ xs) = x +++ sep +++ join sep (y ∷ xs)

-- Python's `x in xs` on strings.
abbrev pub contains : String → List String → Bool
contains x [] = false
contains x (y ∷ ys) = str_eq x y || contains x ys

abbrev pub starts_with : Text → Text → Bool
starts_with [] s = true
starts_with (c ∷ p) [] = false
starts_with (c ∷ p) (d ∷ s) = c == d && starts_with p s

-- Equality of texts.
abbrev pub same_text : Text → Text → Bool
same_text [] [] = true
same_text (c ∷ s) (d ∷ t) = c == d && same_text s t
same_text _ _ = false

abbrev pub has_text : Text → List Text → Bool
has_text t [] = false
has_text t (s ∷ ts) = same_text t s || has_text t ts

-- Python's `p in s` on texts.
abbrev pub is_infix : Text → Text → Bool
is_infix p [] = starts_with p []
is_infix p (c ∷ s) = starts_with p (c ∷ s) || is_infix p s

-- The decimal digits of a number, `str(n)`, on fuel: `n + 1` rounds are enough.
abbrev decimal_from : ℕ → ℕ → Text → Text
decimal_from zero n done = done
decimal_from (suc fuel) n done =
    let last = (48 + n % 10) ∷ done in
    elim (n / 10 == 0) [ true ↦ last | false ↦ decimal_from fuel (n / 10) last ]

abbrev pub decimal : ℕ → Text
decimal n = decimal_from (suc n) n []
