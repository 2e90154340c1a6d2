-- ===== src/Base/Split.antt =====
-- Splitting and cutting texts at a character that a part of them lacks.
use Prim.Native.Char.{Char}
use Prim.Native.Nat.{ℕ}
use Prim.Native.String.{String, ◌++◌ as ◌<>◌}
use mathlib.Core.Path.{◌≡◌, refl}
use mathlib.Core.Logic.{◌↔◌, inl, inr}
use mathlib.Core.Bool.{Bool, true, not, ◌&&◌}
use mathlib.Core.List.{[], ◌∷◌}
use mathlib.Core.Option.{none, some}
use native.Mathlib.Omega.{arith}
use text.Mathlib.TextLemmas.{nil-append, cons-append}
use kluster_capacity.Base.Tests.{Option-cases}
use kluster_capacity.Base.Text.{split, cut, is_char}

-- No character of a text has the code point `k`.
abbrev pub lacks : ℕ → String → Bool
lacks k String.[] = true
lacks k (String.◌∷◌ c s) = not (is_char k c) && lacks k s

pub split-lacks : (k : ℕ) (s : String) → lacks k s ≡ true → split k s ≡ s ∷ []
unfolding split
split-lacks k String.[] h = refl
split-lacks k (String.◌∷◌ c s) h = ground (arith, split-lacks k s)

pub cut-append :
    (k : ℕ) (a b : String) (c : Char)
    → lacks k a ≡ true
    → is_char k c ≡ true
    → cut k (a <> String.◌∷◌ c b) ≡ some (a, b)
unfolding cut
cut-append k String.[] b c h e = rw (nil-append (String.◌∷◌ c b), e) refl
cut-append k (String.◌∷◌ d a) b c h e =
    rw (cons-append d a (String.◌∷◌ c b)) (ground (arith, cut-append k a b c))

pub cut-none_iff : (k : ℕ) (s : String) → (cut k s ≡ none) ↔ (lacks k s ≡ true)
unfolding cut
cut-none_iff k String.[] = ground arith
cut-none_iff k (String.◌∷◌ c s) = elim (Option-cases (cut k s)) [
  | inl e ↦ ground (arith, cut-none_iff k s)
  | inr (x, e) ↦ ground (arith, cut-none_iff k s)
]

pub lacks-append :
    (k : ℕ) (a b : String) → lacks k a ≡ true → lacks k b ≡ true → lacks k (a <> b) ≡ true
lacks-append k String.[] b h e = rw (nil-append b) e
lacks-append k (String.◌∷◌ d a) b h e = rw (cons-append d a b) (ground (arith, lacks-append k a b))

pub split-append :
    (k : ℕ) (a b : String) (c : Char)
    → lacks k a ≡ true
    → is_char k c ≡ true
    → split k (a <> String.◌∷◌ c b) ≡ a ∷ split k b
unfolding split
split-append k String.[] b c h e = rw (nil-append (String.◌∷◌ c b), e) refl
split-append k (String.◌∷◌ d a) b c h e =
    rw (cons-append d a (String.◌∷◌ c b)) (ground (arith, split-append k a b c))
