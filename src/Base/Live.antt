-- ===== src/Base/Live.antt =====
-- Calls that do not run out of fuel.
use Prim.Native.String.{String}
use mathlib.Core.Path.{◌≡◌, refl}
use mathlib.Core.Logic.{◌≢◌}
use mathlib.Core.Bool.{Bool, true, false}
use mathlib.Core.Option.{Option, none, some}
use kluster_capacity.Base.Tests.{if◌then◌else◌}
use kluster_capacity.Base.Monad.{
  Result, ok, err, panic, stuck, Action, ◌>>=◌, continue, caught, attempt, on_error, modify, pure,
  lift,
}

-- At one state, and at all.
abbrev pub LiveAt : {S A : Type 0} → Action S A → S → Type 0
LiveAt m s = (m s).0 ≢ stuck

abbrev pub Live : {S A : Type 0} → Action S A → Type 0
Live {S} m = (s : S) → (m s).0 ≢ stuck

module _ {S : Type 0} where
  continue-Live :
      {A B : Type 0} (f : A → Action S B) (x : Result A × S)
      → x.0 ≢ stuck
      → ((a : A) (s : S) → x ≡ (ok a, s) → LiveAt (f a) s)
      → (continue f x).0 ≢ stuck
  continue-Live f (ok a, s) h k e = k a s refl e
  continue-Live f (err m, s) h k e = cc e
  continue-Live f (panic, s) h k e = cc e
  continue-Live f (stuck, s) h k e = h refl

  -- The second part is only called in states that the first leaves.
  pub >>=-LiveAt :
      {A B : Type 0} (m : Action S A) (f : A → Action S B) (s : S)
      → LiveAt m s
      → ((a : A) (t : S) → m s ≡ (ok a, t) → LiveAt (f a) t)
      → LiveAt (m >>= f) s
  >>=-LiveAt m f s h k = continue-Live f (m s) h k

  pub >>=-Live :
      {A B : Type 0} (m : Action S A) (f : A → Action S B)
      → Live m
      → ((a : A) → Live (f a))
      → Live (m >>= f)
  >>=-Live m f h k s = >>=-LiveAt m f s (h s) (λ a t e. k a t)

  caught-Live : {A : Type 0} (x : Result A × S) → x.0 ≢ stuck → (caught x).0 ≢ stuck
  caught-Live (ok a, s) h e = cc e
  caught-Live (err m, s) h e = cc e
  caught-Live (panic, s) h e = cc e
  caught-Live (stuck, s) h e = h refl

  pub attempt-Live : {A : Type 0} (m : Action S A) → Live m → Live (attempt m)
  attempt-Live m h s = caught-Live (m s) (h s)

  pub modify-Live : (f : S → S) → Live (modify f)
  modify-Live f s e = cc e

  pub pure-Live : {A : Type 0} (a : A) → Live (pure {S = S} a)
  pure-Live a s e = cc e

  pub lift-Live : {A : Type 0} (r : Result A) → r ≢ stuck → Live (lift {S = S} r)
  lift-Live r h s = h

  pub on_error-Live :
      (o : Option String) (h : String → Action S (Unit {0}))
      → ((m : String) → Live (h m))
      → Live (on_error o h)
  on_error-Live none h k s e = cc e
  on_error-Live (some m) h k s e = k m s e

  pub if-Live :
      {A : Type 0} (b : Bool) (m n : Action S A) → Live m → Live n → Live (if b then m else n)
  if-Live true m n hm hn = hm
  if-Live false m n hm hn = hn
