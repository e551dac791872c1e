-- ===== src/Base/Ensures.antt =====
-- Total correctness: the code returns, and what holds of the state is kept.
use Prim.Native.Nat.{ℕ, zero, suc, ◌+◌, ◌<◌}
use mathlib.Core.Path.{◌≡◌, refl}
use native.Mathlib.Omega.{arith}
use quakernel.Base.Exec.{Outcome, returned, halted, undefined, Exec, ◌>>=◌, ◌>>◌, for_range}

-- From the state `s` the code returns, and its last state has the property.
abbrev pub Ensures {ℓ} : {S : Type 0} → Exec S (Unit {0}) → (S → Type ℓ) → S → Type ℓ
Ensures {S} m P s = (s' : S) × (m s ≡ returned tt s') × P s'

-- From every state with the property it does.
abbrev pub Keeps {ℓ} : {S : Type 0} → (S → Type ℓ) → Exec S (Unit {0}) → Type ℓ
Keeps {S = S} P m = (s : S) → P s → Ensures m P s

module _ {ℓ} {S : Type 0} (P : S → Type ℓ) where
  pub Ensures-then :
      (m k : Exec S (Unit {0})) (s : S) → Ensures m P s → Keeps P k → Ensures (m >> k) P s
  Ensures-then m k s (s', e, h) keep = let (s'', e', h') = keep s' h in (s'', rw (e, ◌>>=◌) e', h')

  pub for_range-Keeps :
      (body : ℕ → Exec S (Unit {0})) (rounds first : ℕ)
      → ((i : ℕ) → i < first + rounds → Keeps P (body i))
      → Keeps P (for_range rounds first body)
  unfolding for_range
  for_range-Keeps body zero first keep s h = (s, refl, h)
  for_range-Keeps body (suc rounds) first keep s h =
      Ensures-then (body first) (for_range rounds (first + 1) body) s (keep first (omega arith) s h)
        (for_range-Keeps body rounds (first + 1) (λ i lt. keep i (omega arith)))

module _ {S B : Type 0} (k : Exec S B) (b : B) (s' : S) where
  then_inversion :
      (o : Outcome S (Unit {0}))
      → ◌>>◌ (λ (s : S). o) k s' ≡ returned b s'
      → (t : S) × (o ≡ returned tt t) × (k t ≡ returned b s')
  then_inversion (returned a t) e = (t, refl, e)
  then_inversion (halted t) e = cc
  then_inversion undefined e = cc

  -- Code that has returned went through a state where its first part had returned.
  pub then-returned :
      (m : Exec S (Unit {0})) (s : S)
      → (m >> k) s ≡ returned b s'
      → (t : S) × (m s ≡ returned tt t) × (k t ≡ returned b s')
  then-returned m s e = then_inversion (m s) e
