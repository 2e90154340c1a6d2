-- ===== src/Base/Digits.antt =====
-- A number is known by its decimal digits.
use Prim.Native.Char.{code}
use Prim.Native.Nat.{ℕ, zero, suc, ◌+◌, ◌*◌, ◌-◌, ◌/◌, ◌%◌, ◌≤◌, ◌<◌}
use Prim.Native.String.{String, ◌++◌}
use mathlib.Core.Path.{◌≡◌, refl, sym, ap, ◌∙◌}
use mathlib.Core.Logic.{inl, inr}
use native.Mathlib.Omega.{arith}
use text.Mathlib.TextLemmas.{nil-append, cons-append}
use kluster_capacity.Base.Tests.{ltb, Bool-cases, ltb→lt}
use kluster_capacity.Base.Text.{digit, show_from, show_nat}

abbrev value : ℕ → String → ℕ
value acc String.[] = acc
value acc (String.◌∷◌ c s) = value (acc * 10 + (code c - 48)) s

value-append : (acc : ℕ) (s t : String) → value acc (s ++ t) ≡ value (value acc s) t
value-append acc String.[] t = rw (nil-append t) refl
value-append acc (String.◌∷◌ c s) t =
    rw (cons-append c s t) (value-append (acc * 10 + (code c - 48)) s t)

value-digit : (acc d : ℕ) → d < 10 → value acc (digit d) ≡ acc * 10 + d
value-digit acc zero h = refl
value-digit acc (suc zero) h = refl
value-digit acc (suc (suc zero)) h = refl
value-digit acc (suc (suc (suc zero))) h = refl
value-digit acc (suc (suc (suc (suc zero)))) h = refl
value-digit acc (suc (suc (suc (suc (suc zero))))) h = refl
value-digit acc (suc (suc (suc (suc (suc (suc zero)))))) h = refl
value-digit acc (suc (suc (suc (suc (suc (suc (suc zero))))))) h = refl
value-digit acc (suc (suc (suc (suc (suc (suc (suc (suc zero)))))))) h = refl
value-digit acc (suc (suc (suc (suc (suc (suc (suc (suc (suc zero))))))))) h = refl
value-digit acc (suc (suc (suc (suc (suc (suc (suc (suc (suc (suc d)))))))))) h =
    absurd (omega arith)

value-show_from : (f n : ℕ) → n ≤ f → value 0 (show_from f n) ≡ n
unfolding show_from
value-show_from zero n h = value-digit 0 (n % 10) (omega arith) ∙ omega arith
value-show_from (suc f) n h = elim (Bool-cases (ltb n 10)) [
  | inl e ↦ let small = ltb→lt n 10 e in rw e (value-digit 0 n small ∙ omega arith)
  | inr e ↦
      let large : 10 ≤ n = ground arith in
      let front = value-show_from f (n / 10) (omega arith) in
      rw e (
        value-append 0 (show_from f (n / 10)) (digit (n % 10))
        ∙ value-digit (value 0 (show_from f (n / 10))) (n % 10) (omega arith)
        ∙ omega arith)
]

pub show_nat-injective : (m n : ℕ) → show_nat m ≡ show_nat n → m ≡ n
unfolding show_nat
show_nat-injective m n h =
    sym (value-show_from m m (omega arith)) ∙ ap (value 0) h ∙ value-show_from n n (omega arith)
