-- ===== src/Base/Post.antt =====
-- What holds after a call, which may depend on whether it succeeds.
use kluster_capacity.Base.Monad.{Result, ok, err, panic, stuck, Action, ◌>>=◌, continue}

module _ {S : Type 0} where
  -- `P` after a success, and `Q` after any other outcome.
  abbrev pub Yields : {A : Type 0} → (A → S → Type 0) → (S → Type 0) → Result A × S → Type 0
  Yields P Q (ok a, t) = P a t
  Yields P Q (err m, t) = Q t
  Yields P Q (panic, t) = Q t
  Yields P Q (stuck, t) = Q t

  pub any-Yields :
      {A : Type 0} (P : A → S → Type 0) (Q : S → Type 0) (x : Result A × S)
      → ((a : A) → P a x.1)
      → Q x.1
      → Yields P Q x
  any-Yields P Q (ok a, t) p q = p a
  any-Yields P Q (err m, t) p q = q
  any-Yields P Q (panic, t) p q = q
  any-Yields P Q (stuck, t) p q = q

  continue-Yields :
      {A B : Type 0} (P : A → S → Type 0) (R : B → S → Type 0) (Q : S → Type 0) (f : A → Action S B)
      (x : Result A × S)
      → Yields P Q x
      → ((a : A) (t : S) → P a t → Yields R Q (f a t))
      → Yields R Q (continue f x)
  continue-Yields P R Q f (ok a, t) p h = h a t p
  continue-Yields P R Q f (err m, t) q h = q
  continue-Yields P R Q f (panic, t) q h = q
  continue-Yields P R Q f (stuck, t) q h = q

  pub >>=-Yields :
      {A B : Type 0} (P : A → S → Type 0) (R : B → S → Type 0) (Q : S → Type 0) (m : Action S A)
      (f : A → Action S B) (s : S)
      → Yields P Q (m s)
      → ((a : A) (t : S) → P a t → Yields R Q (f a t))
      → Yields R Q ((m >>= f) s)
  >>=-Yields P R Q m f s p h = continue-Yields P R Q f (m s) p h

  pub Yields-any : {A : Type 0} (Q : S → Type 0) (x : Result A × S) → Yields (λ a. Q) Q x → Q x.1
  Yields-any Q (ok a, t) p = p
  Yields-any Q (err m, t) p = p
  Yields-any Q (panic, t) p = p
  Yields-any Q (stuck, t) p = p

  -- The first part of a sequence may do what the second one undoes.
  pub >>=-after :
      {A B : Type 0} (Q : S → Type 0) (m : Action S A) (f : A → Action S B) (s : S)
      → Q (m s).1
      → ((a : A) (t : S) → Q t → Q (f a t).1)
      → Q ((m >>= f) s).1
  >>=-after Q m f s q h = Yields-any Q ((m >>= f) s) (
      >>=-Yields (λ a. Q) (λ b. Q) Q m f s (any-Yields (λ a. Q) Q (m s) (λ a. q) q)
        (λ a t q'. any-Yields (λ b. Q) Q (f a t) (λ b. h a t q') (h a t q')))
