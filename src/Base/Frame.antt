-- ===== src/Base/Frame.antt =====
-- What a call leaves as it was: a relation between the states before and after, whatever the outcome.
use mathlib.Core.Bool.{Bool, true, false}
use mathlib.Core.Option.{Option, none, some}
use Prim.Native.String.{String}
use kluster_capacity.Base.Tests.{if◌then◌else◌}
use kluster_capacity.Base.Monad.{
  Result, ok, err, panic, stuck, Action, ◌>>=◌, attempt, on_error, continue, caught,
}

pub record IsPreorder {S : Type 0} (R : S → S → Type 0) : Type 0 where
  pub same : (s : S) → R s s
  pub then' : (s t u : S) → R s t → R t u → R s u

abbrev pub Keeps : {S A : Type 0} → (S → S → Type 0) → Action S A → Type 0
Keeps {S} R m = (s : S) → R s (m s).1

module _ {S : Type 0} {R : S → S → Type 0} (r : IsPreorder R) where
  continue-Keeps :
      {A B : Type 0} (f : A → Action S B) (x : Result A × S)
      → ((a : A) → Keeps R (f a))
      → R x.1 (continue f x).1
  continue-Keeps f (ok a, t) h = h a t
  continue-Keeps f (err e, t) h = r.same t
  continue-Keeps f (panic, t) h = r.same t
  continue-Keeps f (stuck, t) h = r.same t

  pub >>=-Keeps :
      {A B : Type 0} (m : Action S A) (f : A → Action S B)
      → Keeps R m
      → ((a : A) → Keeps R (f a))
      → Keeps R (m >>= f)
  >>=-Keeps m f hm hf s = r.then' s (m s).1 _ (hm s) (continue-Keeps f (m s) hf)

  caught-Keeps : {A : Type 0} (x : Result A × S) → R x.1 (caught x).1
  caught-Keeps (ok a, t) = r.same t
  caught-Keeps (err e, t) = r.same t
  caught-Keeps (panic, t) = r.same t
  caught-Keeps (stuck, t) = r.same t

  pub attempt-Keeps : {A : Type 0} (m : Action S A) → Keeps R m → Keeps R (attempt m)
  attempt-Keeps m h s = r.then' s (m s).1 _ (h s) (caught-Keeps (m s))

  pub on_error-Keeps :
      (o : Option String) (h : String → Action S (Unit {0}))
      → ((e : String) → Keeps R (h e))
      → Keeps R (on_error o h)
  on_error-Keeps none h k = r.same
  on_error-Keeps (some e) h k = k e

  pub if-Keeps :
      {A : Type 0} (b : Bool) (m n : Action S A)
      → Keeps R m
      → Keeps R n
      → Keeps R (if b then m else n)
  if-Keeps true m n hm hn = hm
  if-Keeps false m n hm hn = hn
