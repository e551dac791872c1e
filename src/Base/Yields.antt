-- ===== src/Base/Yields.antt =====
-- What holds of a result and of the state, if the code does not do what C leaves undefined.
use mathlib.Core.Path.{◌≡◌, refl}
use mathlib.Core.Option.{Option, none, some}
use quakernel.Base.Exec.{Exec, Outcome, returned, halted, undefined, from_option, ◌>>=◌}

module _ {S : Type 0} (Q : S → Type 0) where
  -- `Q` holds of the state in which the code returns or is stopped, and `P` of the result.
  abbrev pub Yields : {A : Type 0} → (A → Type 0) → Outcome S A → Type 0
  Yields P (returned a s) = P a × Q s
  Yields P (halted s) = Q s
  Yields P undefined = Unit

  then-Yields :
      {A B : Type 0} (P : A → Type 0) (R : B → Type 0) (m : Outcome S A) (f : A → Exec S B)
      → Yields P m
      → ((a : A) (s : S) → P a → Q s → Yields R (f a s))
      → Yields R (elim m as (λ x. Outcome S B) [
        | returned a s ↦ f a s
        | halted s ↦ halted s
        | undefined ↦ undefined
      ])
  then-Yields P R (returned a s) f h k = k a s h.0 h.1
  then-Yields P R (halted s) f h k = h
  then-Yields P R undefined f h k = tt

  pub Yields-bind :
      {A B : Type 0} (P : A → Type 0) (R : B → Type 0) (m : Exec S A) (f : A → Exec S B) (s : S)
      → Yields P (m s)
      → ((a : A) (s' : S) → P a → Q s' → Yields R (f a s'))
      → Yields R ((m >>= f) s)
  Yields-bind P R m f s h k = then-Yields P R (m s) f h k

  pub from_option-Yields :
      {A : Type 0} (o : Option A) (s : S) → Q s → Yields (λ (a : A). o ≡ some a) (from_option o s)
  from_option-Yields none s q = tt
  from_option-Yields (some a) s q = (refl, q)

  pub Yields-mono :
      {A : Type 0} (P R : A → Type 0) (o : Outcome S A)
      → ((a : A) → P a → R a)
      → Yields P o
      → Yields R o
  Yields-mono P R (returned a s) k h = (k a h.0, h.1)
  Yields-mono P R (halted s) k h = h
  Yields-mono P R undefined k h = h
