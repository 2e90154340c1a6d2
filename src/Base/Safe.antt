-- ===== src/Base/Safe.antt =====
-- Calls that do not run out of fuel, and keep an invariant of the state whatever their outcome.
use Prim.Native.String.{String}
use mathlib.Core.Path.{refl}
use mathlib.Core.Logic.{◌≢◌}
use mathlib.Core.Bool.{Bool, true, false}
use mathlib.Core.Option.{Option, none, some}
use kluster_capacity.Base.Tests.{if◌then◌else◌}
use kluster_capacity.Base.Monad.{
  Result, ok, err, panic, stuck, Action, ◌>>=◌, continue, caught, attempt, on_error, pure, modify,
}

module _ {S : Type 0} (P : S → Type 0) where
  -- At one state, and at all that the invariant holds of.
  abbrev pub SafeAt : {A : Type 0} → Action S A → S → Type 0
  SafeAt m s = ((m s).0 ≢ stuck) × P (m s).1

  abbrev pub Safe : {A : Type 0} → Action S A → Type 0
  Safe m = (s : S) → P s → SafeAt m s

  continue-Safe :
      {A B : Type 0} (f : A → Action S B) (x : Result A × S)
      → (x.0 ≢ stuck) × P x.1
      → ((a : A) → Safe (f a))
      → ((continue f x).0 ≢ stuck) × P (continue f x).1
  continue-Safe f (ok a, s) (live, p) h = h a s p
  continue-Safe f (err m, s) (live, p) h = (λ e. cc e, p)
  continue-Safe f (panic, s) (live, p) h = (λ e. cc e, p)
  continue-Safe f (stuck, s) (live, p) h = (λ e. live refl, p)

  pub >>=-SafeAt :
      {A B : Type 0} (m : Action S A) (f : A → Action S B) (s : S)
      → SafeAt m s
      → ((a : A) → Safe (f a))
      → SafeAt (m >>= f) s
  >>=-SafeAt m f s h k = continue-Safe f (m s) h k

  pub >>=-Safe :
      {A B : Type 0} (m : Action S A) (f : A → Action S B)
      → Safe m
      → ((a : A) → Safe (f a))
      → Safe (m >>= f)
  >>=-Safe m f h k s p = continue-Safe f (m s) (h s p) k

  caught-Safe :
      {A : Type 0} (x : Result A × S)
      → (x.0 ≢ stuck) × P x.1
      → ((caught x).0 ≢ stuck) × P (caught x).1
  caught-Safe (ok a, s) (live, p) = (λ e. cc e, p)
  caught-Safe (err m, s) (live, p) = (λ e. cc e, p)
  caught-Safe (panic, s) (live, p) = (λ e. cc e, p)
  caught-Safe (stuck, s) (live, p) = (λ e. live refl, p)

  pub attempt-Safe : {A : Type 0} (m : Action S A) → Safe m → Safe (attempt m)
  attempt-Safe m h s p = caught-Safe (m s) (h s p)

  pub pure-Safe : {A : Type 0} (a : A) → Safe (pure a)
  pure-Safe a s p = (λ e. cc e, p)

  pub modify-Safe : (f : S → S) → ((s : S) → P s → P (f s)) → Safe (modify f)
  modify-Safe f h s p = (λ e. cc e, h s p)

  pub on_error-Safe :
      (o : Option String) (h : String → Action S (Unit {0}))
      → ((m : String) → Safe (h m))
      → Safe (on_error o h)
  on_error-Safe none h k = pure-Safe tt
  on_error-Safe (some m) h k = k m

  pub if-Safe :
      {A : Type 0} (b : Bool) (m n : Action S A) → Safe m → Safe n → Safe (if b then m else n)
  if-Safe true m n hm hn = hm
  if-Safe false m n hm hn = hn
