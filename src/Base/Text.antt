-- ===== src/Base/Text.antt =====
-- The text functions of Go's standard library that the program calls.
use Prim.Native.Char.{Char, code}
use Prim.Native.Nat.{ℕ, zero, suc, ◌/◌, ◌%◌}
use Prim.Native.String.{String, ◌++◌}
use mathlib.Core.Bool.{Bool}
use mathlib.Core.List.{List, [], ◌∷◌}
use mathlib.Core.Option.{Option, none, some}
use kluster_capacity.Base.Tests.{eqb, ltb, if◌then◌else◌}

abbrev pub is_char : ℕ → Char → Bool
is_char k c = eqb (code c) k

-- `strings.Split` at a separator of one character: never the empty list.
abbrev push_front : Char → List String → List String
push_front c [] = (String.◌∷◌ c String.[]) ∷ []
push_front c (w ∷ ws) = (String.◌∷◌ c w) ∷ ws

unfoldable pub split : ℕ → String → List String
split k String.[] = String.[] ∷ []
split k (String.◌∷◌ c s) =
    let rest = split k s in if is_char k c then String.[] ∷ rest else push_front c rest

-- The text before the first character `k` and the text after it; `none` if there is no such character.
unfoldable pub cut : ℕ → String → Option (String × String)
cut k String.[] = none
cut k (String.◌∷◌ c s) =
    if is_char k c
    then some (String.[], s)
    else elim (cut k s) [ none ↦ none | some (a, b) ↦ some (String.◌∷◌ c a, b) ]

-- `strings.Trim(s, " ")`: blanks at either end.
trim_left : String → String
trim_left String.[] = String.[]
trim_left (String.◌∷◌ c s) = if is_char b' ' c then trim_left s else String.◌∷◌ c s

-- A blank is kept only if something follows that is kept.
abbrev cons_unless_blank : Char → String → String
cons_unless_blank c String.[] = if is_char b' ' c then String.[] else String.◌∷◌ c String.[]
cons_unless_blank c (String.◌∷◌ d s) = String.◌∷◌ c (String.◌∷◌ d s)

trim_right : String → String
trim_right String.[] = String.[]
trim_right (String.◌∷◌ c s) = cons_unless_blank c (trim_right s)

unfoldable pub trim : String → String
unfolding trim_left trim_right
trim s = trim_left (trim_right s)

-- `%d` of a number that is not negative.
abbrev pub digit : ℕ → String
digit zero = "0"
digit (suc zero) = "1"
digit (suc (suc zero)) = "2"
digit (suc (suc (suc zero))) = "3"
digit (suc (suc (suc (suc zero)))) = "4"
digit (suc (suc (suc (suc (suc zero))))) = "5"
digit (suc (suc (suc (suc (suc (suc zero)))))) = "6"
digit (suc (suc (suc (suc (suc (suc (suc zero))))))) = "7"
digit (suc (suc (suc (suc (suc (suc (suc (suc zero)))))))) = "8"
digit _ = "9"

-- The fuel is the number itself: each round divides it by ten.
unfoldable pub show_from : ℕ → ℕ → String
show_from zero n = digit (n % 10)
show_from (suc f) n =
    let rest = show_from f (n / 10) ++ digit (n % 10) in if ltb n 10 then digit n else rest

unfoldable pub show_nat : ℕ → String
unfolding show_from
show_nat n = show_from n n
