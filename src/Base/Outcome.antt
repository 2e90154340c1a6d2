-- ===== src/Base/Outcome.antt =====
-- Go calls that change no state: a chain of results up to the first error.
use Prim.Native.String.{String, ◌++◌ as ◌<>◌}
use mathlib.Core.Path.{◌≡◌, refl}
use mathlib.Core.Option.{Option, none, some}
use kluster_capacity.Base.Monad.{Result, ok, err, panic, stuck}

infixl 5 ◌>>=◌
abbrev pub ◌>>=◌ {ℓ κ} : {A : Type ℓ} {B : Type κ} → Result A → (A → Result B) → Result B
r >>= f = elim r [ ok a ↦ f a | err m ↦ err m | panic ↦ panic | stuck ↦ stuck ]

-- `fmt.Errorf("…: %v", err)`
abbrev pub wrap {ℓ} : {A : Type ℓ} → (before after : String) → Result A → Result A
wrap before after (ok a) = ok a
wrap before after (err m) = err (before <> (m <> after))
wrap before after panic = panic
wrap before after stuck = stuck

-- A call that returns nothing but an error.
abbrev pub check : Option String → Result (Unit {0})
check none = ok tt
check (some m) = err m

-- What a pointer points to.
abbrev pub deref {ℓ} : {A : Type ℓ} → Option A → Result A
deref none = panic
deref (some a) = ok a

-- The value of a key, or an error.
abbrev pub or_err {ℓ} : {A : Type ℓ} → String → Option A → Result A
or_err m none = err m
or_err m (some a) = ok a

pub >>=-eq-ok {ℓ κ} :
    {A : Type ℓ} {B : Type κ} (r : Result A) (f : A → Result B) {b : B}
    → (r >>= f) ≡ ok b
    → (a : A) × (r ≡ ok a) × (f a ≡ ok b)
>>=-eq-ok (ok a) f h = (a, refl, h)
>>=-eq-ok (err m) f h = cc h
>>=-eq-ok panic f h = cc h
>>=-eq-ok stuck f h = cc h

pub wrap-eq-ok {ℓ} :
    {A : Type ℓ} (before after : String) (r : Result A) {a : A}
    → wrap before after r ≡ ok a
    → r ≡ ok a
wrap-eq-ok before after (ok a) h = h
wrap-eq-ok before after (err m) h = cc h
wrap-eq-ok before after panic h = cc h
wrap-eq-ok before after stuck h = cc h
