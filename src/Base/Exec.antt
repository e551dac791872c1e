-- ===== src/Base/Exec.antt =====
-- Code that keeps a state, may stop the machine (`hcf`), and may do what C leaves undefined.
use mathlib.Core.Bool.{Bool, true, false}
use mathlib.Core.Option.{Option, none, some}
use Prim.Native.Nat.{ℕ, zero, suc, ◌+◌}

-- `halted` is the endless `wfi` loop of `hcf`, in the state that it was entered with; `undefined` is
-- a null dereference, a read out of an array, a value never written, or a shift out of range.
pub data Outcome (S A : Type 0) : Type 0 where
  returned : A → S → Outcome S A
  halted : S → Outcome S A
  undefined : Outcome S A

abbrev pub Exec : Type 0 → Type 0 → Type 0
Exec S A = S → Outcome S A

module _ {S A : Type 0} where
  abbrev pub pure : A → Exec S A
  pure a s = returned a s

  abbrev pub fault : Exec S A
  fault s = undefined

  abbrev pub from_option : Option A → Exec S A
  from_option none s = undefined
  from_option (some a) s = returned a s

  -- The state in which the machine stopped, if it did.
  abbrev pub stopped_in : Outcome S A → Option S
  stopped_in (halted s) = some s
  stopped_in _ = none

infixl 5 ◌>>=◌ ◌>>◌
abbrev pub ◌>>=◌ : {S A B : Type 0} → Exec S A → (A → Exec S B) → Exec S B
◌>>=◌ m f s = elim (m s) [ returned a s' ↦ f a s' | halted s' ↦ halted s' | undefined ↦ undefined ]

abbrev pub ◌>>◌ : {S B : Type 0} → Exec S (Unit {0}) → Exec S B → Exec S B
m >> k = m >>= λ _. k

-- `if( test ) { body }`
abbrev pub when : {S : Type 0} → Bool → Exec S (Unit {0}) → Exec S (Unit {0})
when true m = m
when false m = pure tt

module _ {S : Type 0} where
  abbrev pub modify : (S → S) → Exec S (Unit {0})
  modify f s = returned tt (f s)

  -- `for( i = first; i < first + rounds; i++ ) body( i );`
  unfoldable pub for_range : ℕ → ℕ → (ℕ → Exec S (Unit {0})) → Exec S (Unit {0})
  for_range zero first body = pure tt
  for_range (suc rounds) first body = do body first; for_range rounds (first + 1) body
