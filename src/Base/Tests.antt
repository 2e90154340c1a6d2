-- ===== src/Base/Tests.antt =====
-- Boolean tests on the native numbers, the conditional, and case splits that keep an equation.
use Prim.Native.Nat.{ℕ, ◌≤◌, ◌<◌, compare, Ordering}
use mathlib.Core.Path.{◌≡◌, refl}
use mathlib.Core.Logic.{◌↔◌, ◌⊎◌, inl, inr}
use mathlib.Core.Bool.{Bool, true, false}
use mathlib.Core.Option.{Option, none, some}
use native.Mathlib.Omega.{arith}

abbrev pub ltb : ℕ → ℕ → Bool
ltb a b = elim (compare a b) [ Ordering.lt ↦ true | _ ↦ false ]

abbrev pub leb : ℕ → ℕ → Bool
leb a b = elim (compare a b) [ Ordering.gt ↦ false | _ ↦ true ]

abbrev pub eqb : ℕ → ℕ → Bool
eqb a b = elim (compare a b) [ Ordering.eq ↦ true | _ ↦ false ]

infix 1 if◌then◌else◌
abbrev pub if◌then◌else◌ {ℓ} : {A : Type ℓ} → Bool → A → A → A
if true then x else y = x
if false then x else y = y

pub ltb→lt : (a b : ℕ) → ltb a b ≡ true → a < b
ltb→lt a b h = ground arith

pub lt→ltb : (a b : ℕ) → a < b → ltb a b ≡ true
lt→ltb a b h = ground arith

pub le→ltb : (a b : ℕ) → b ≤ a → ltb a b ≡ false
le→ltb a b h = ground arith

pub eqb_iff : (a b : ℕ) → (eqb a b ≡ true) ↔ (a ≡ b)
eqb_iff a b = ground arith

pub Bool-cases : (b : Bool) → (b ≡ true) ⊎ (b ≡ false)
Bool-cases true = inl refl
Bool-cases false = inr refl

pub Option-cases {ℓ} : {A : Type ℓ} (o : Option A) → (o ≡ none) ⊎ ((a : A) × (o ≡ some a))
Option-cases none = inl refl
Option-cases (some a) = inr (a, refl)

-- A conditional action that ran is the branch that the test chooses.
pub if_true :
    {A B : Type 0} (b : Bool) (f g : A → B) (a : A) {r : B}
    → b ≡ true
    → (if b then f else g) a ≡ r
    → f a ≡ r
if_true true f g a e h = h
if_true false f g a e h = absurd (cc e)

pub if_false :
    {A B : Type 0} (b : Bool) (f g : A → B) (a : A) {r : B}
    → b ≡ false
    → (if b then f else g) a ≡ r
    → g a ≡ r
if_false true f g a e h = absurd (cc e)
if_false false f g a e h = h

-- The other way round: a test that is known chooses the branch.
pub if_true_eq :
    {A B : Type 0} (b : Bool) (f g : A → B) (a : A) → b ≡ true → (if b then f else g) a ≡ f a
if_true_eq true f g a e = refl
if_true_eq false f g a e = absurd (cc e)

pub if_false_eq :
    {A B : Type 0} (b : Bool) (f g : A → B) (a : A) → b ≡ false → (if b then f else g) a ≡ g a
if_false_eq true f g a e = absurd (cc e)
if_false_eq false f g a e = refl
