-- ===== src/Base/Monad.antt =====
-- Go calls as state passing: the state comes back after an error too, since what was written stays
-- written, and after a panic, which no caller catches. `stuck` is a call that does not return: it waits for
-- a channel that nothing closes, or recurs without a bound of its own and its fuel has run out.
use Prim.Native.String.{String}
use mathlib.Core.Path.{◌≡◌, refl, ap}
use mathlib.Core.Option.{Option, none, some}
use mathlib.Core.Logic.{◌⊎◌, inl, inr}

pub data Result {ℓ} (A : Type ℓ) : Type ℓ where
  ok : A → Result A
  err : String → Result A
  panic : Result A
  stuck : Result A

pub ok-injective : {A : Type 0} {a b : A} → ◌≡◌ {A = Result A} (ok a) (ok b) → a ≡ b
ok-injective h = cc h

abbrev pub Action : Type 0 → Type 0 → Type 0
Action S A = S → Result A × S

module _ {S : Type 0} where
  infixl 5 ◌>>=◌ ◌>>◌
  abbrev pub ◌>>=◌ : {A B : Type 0} → Action S A → (A → Action S B) → Action S B
  ◌>>=◌ m f s =
      let (r, s') = m s in
      elim r [ ok a ↦ f a s' | err e ↦ (err e, s') | panic ↦ (panic, s') | stuck ↦ (stuck, s') ]

  -- What happens with the outcome of the first part of a sequence.
  abbrev pub continue : {A B : Type 0} → (A → Action S B) → Result A × S → Result B × S
  continue f x = elim x.0 [
    | ok a ↦ f a x.1
    | err e ↦ (err e, x.1)
    | panic ↦ (panic, x.1)
    | stuck ↦ (stuck, x.1)
  ]

  pub >>=-ok :
      {A B : Type 0} (m : Action S A) (f : A → Action S B) (s s' : S) {a : A}
      → m s ≡ (ok a, s')
      → (m >>= f) s ≡ f a s'
  >>=-ok m f s s' h = ap (continue f) h

  pub >>=-err :
      {A B : Type 0} (m : Action S A) (f : A → Action S B) (s s' : S) {msg : String}
      → m s ≡ (err msg, s')
      → (m >>= f) s ≡ (err msg, s')
  >>=-err m f s s' h = ap (continue f) h

  abbrev pub ◌>>◌ : {A B : Type 0} → Action S A → Action S B → Action S B
  m >> k = m >>= λ _. k

  abbrev pub pure : {A : Type 0} → A → Action S A
  pure a s = (ok a, s)

  abbrev pub raise : {A : Type 0} → String → Action S A
  raise e s = (err e, s)

  abbrev pub crash : {A : Type 0} → Action S A
  crash s = (panic, s)

  abbrev pub get : Action S S
  get s = (ok s, s)

  abbrev pub modify : (S → S) → Action S (Unit {0})
  modify f s = (ok tt, f s)

  abbrev pub caught : {A : Type 0} → Result A × S → Result (Option String) × S
  caught (ok a, t) = (ok none, t)
  caught (err e, t) = (ok (some e), t)
  caught (panic, t) = (panic, t)
  caught (stuck, t) = (stuck, t)

  -- `err := m()`: the error as a value, for the code that goes on after it.
  abbrev pub attempt : {A : Type 0} → Action S A → Action S (Option String)
  attempt m s = caught (m s)

  -- `if err != nil { handler }`
  abbrev pub on_error : Option String → (String → Action S (Unit {0})) → Action S (Unit {0})
  on_error none h = pure tt
  on_error (some e) h = h e

  abbrev pub lift : {A : Type 0} → Result A → Action S A
  lift r s = (r, s)

  -- Inversion of a sequence that succeeds, and of an error that was caught or not.
  pub >>=-eq-ok :
      {A B : Type 0} (m : Action S A) (f : A → Action S B) (s : S) {b : B} {t : S}
      → (m >>= f) s ≡ (ok b, t)
      → (a : A) × (u : S) × (m s ≡ (ok a, u)) × (f a u ≡ (ok b, t))
  >>=-eq-ok {A} {B} m f s {b} {t} h = go (m s) refl h
    where
      go :
          (x : Result A × S)
          → m s ≡ x
          → continue f x ≡ (ok b, t)
          → (a : A) × (u : S) × (m s ≡ (ok a, u)) × (f a u ≡ (ok b, t))
      go (ok a, u) e h' = (a, u, e, h')
      go (err msg, u) e h' = cc h'
      go (panic, u) e h' = cc h'
      go (stuck, u) e h' = cc h'

  pub attempt-eq-ok :
      {A : Type 0} (m : Action S A) (s t : S) {o : Option String}
      → attempt m s ≡ (ok o, t)
      → ((a : A) × (m s ≡ (ok a, t)) × (o ≡ none))
        ⊎ ((msg : String) × (m s ≡ (err msg, t)) × (o ≡ some msg))
  attempt-eq-ok {A} m s t {o} h = go (m s) refl h
    where
      go :
          (x : Result A × S)
          → m s ≡ x
          → caught x ≡ (ok o, t)
          → ((a : A) × (m s ≡ (ok a, t)) × (o ≡ none))
            ⊎ ((msg : String) × (m s ≡ (err msg, t)) × (o ≡ some msg))
      go (ok a, u) e h' = inl (a, cc (e, h'), cc h')
      go (err msg, u) e h' = inr (msg, cc (e, h'), cc h')
      go (panic, u) e h' = cc h'
      go (stuck, u) e h' = cc h'
