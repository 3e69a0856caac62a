-- ===== src/Prelude/Calls.antt =====
-- A call with what it returns and the world it leaves behind, and what a chain of calls that returns
-- is made of.
use mathlib.Core.Path.{◌≡◌, refl, ap, sym}
use mathlib.Core.Bool.{Bool, true, false}
use mathlib.Core.Option.{Option, none, some}
use zeus_be.Prelude.Effect.{
  Action, Result, ok, err, ok-injective, pure, discard, or_error, ensure, continue, some_or, ◌>>=◌,
  ◌>>◌,
}

-- The call returns the value and leaves the world behind.
abbrev pub Runs {σ ε ℓ} :
    {W : Type σ} {E : Type ε} {A : Type ℓ} → Action W E A → W → A → W → Type (σ ⊔ ε ⊔ ℓ)
Runs m w a v = m w ≡ (ok a, v)

module _ {σ ε ℓ} {W : Type σ} {E : Type ε} {A : Type ℓ} where
  pub Runs-of : (m : Action W E A) (w : W) (a : A) → (m w).0 ≡ ok a → Runs m w a (m w).1
  Runs-of m w a h = ap (λ r. (r, (m w).1)) h

  pub pure-Runs : (a b : A) (w v : W) → Runs {E = E} (pure a) w b v → (a ≡ b) × (w ≡ v)
  pure-Runs a b w v h = (ok-injective (ap (λ p. p.0) h), ap (λ p. p.1) h)

  pub discard-Runs : (m : Action W E A) (w v : W) → Runs (discard m) w tt v → v ≡ (m w).1
  unfolding discard
  discard-Runs m w v h = sym (ap (λ p. p.1) h)

  some_or-Runs :
      (r : Result E (Option A) × W) (e : E) (a : A) (v : W)
      → some_or r e ≡ (ok a, v)
      → r ≡ (ok (some a), v)
  some_or-Runs (ok (some b), w) e a v h =
      let same : b ≡ a = ok-injective (ap (λ p. p.0) h) in let world : w ≡ v = ap (λ p. p.1) h in cc
  some_or-Runs (ok none, w) e a v h = let clash = ap (λ p. p.0) h in cc
  some_or-Runs (err e', w) e a v h = let clash = ap (λ p. p.0) h in cc

  pub or_error-Runs :
      (m : Action W E (Option A)) (e : E) (w : W) (a : A) (v : W)
      → Runs (or_error m e) w a v
      → Runs m w (some a) v
  unfolding or_error
  or_error-Runs m e w a v h = some_or-Runs (m w) e a v h

  pub ensure-Runs :
      (b : Bool) (e : E) (k : Action W E A) (w : W) (a : A) (v : W)
      → Runs (ensure b e >> k) w a v
      → (b ≡ true) × Runs k w a v
  unfolding ensure ◌>>=◌
  ensure-Runs true e k w a v h = (refl, h)
  ensure-Runs false e k w a v h = let clash = ap (λ p. p.0) h in cc

module _ {σ ε ℓ κ} {W : Type σ} {E : Type ε} {A : Type ℓ} {B : Type κ} where
  continue-Runs :
      (r : Result E A × W) (f : A → Action W E B) (b : B) (v : W)
      → continue r f ≡ (ok b, v)
      → (a : A) × (u : W) × (r ≡ (ok a, u)) × Runs (f a) u b v
  continue-Runs (ok a, u) f b v h = (a, u, refl, h)
  continue-Runs (err e, u) f b v h = let clash = ap (λ p. p.0) h in cc

  -- A chain that returns has a first call that returns, and the rest of it starts where that ended.
  pub >>=-Runs :
      (m : Action W E A) (f : A → Action W E B) (w : W) (b : B) (v : W)
      → Runs (m >>= f) w b v
      → (a : A) × (u : W) × Runs m w a u × Runs (f a) u b v
  unfolding ◌>>=◌
  >>=-Runs m f w b v h = continue-Runs (m w) f b v h
