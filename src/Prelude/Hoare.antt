-- ===== src/Prelude/Hoare.antt =====
-- Rules for predicates on the world along a chain of calls: `Keeps P m` where every end of `m`
-- has `P` again, `Ends Q m w` where every success of `m` from `w` has `Q`.
use mathlib.Core.Path.{◌≡◌, refl}
use mathlib.Core.Bool.{Bool, true, false}
use mathlib.Core.Option.{Option}
use zeus_be.Prelude.Effect.{
  Result, ok, err, Action, continue, attempt, discard, or_error, ensure, ◌>>=◌, ◌>>◌, >>=-state,
  attempt-state, or_error-state, ensure_keeps,
}
use zeus_be.Prelude.Tests.{if◌then◌else◌}

abbrev pub Keeps {σ ε ℓ π} :
    {W : Type σ} {E : Type ε} {A : Type ℓ} → (W → Type π) → Action W E A → Type (σ ⊔ π)
Keeps {W = W} P m = (w : W) → P w → P (m w).1

abbrev pub Ends {σ ε ℓ π} :
    {W : Type σ} {E : Type ε} {A : Type ℓ} → (A → W → Type π) → Action W E A → W → Type (ε ⊔ ℓ ⊔ π)
Ends {A = A} Q m w = (a : A) → (m w).0 ≡ ok a → Q a (m w).1

module _ {σ ε π} {W : Type σ} {E : Type ε} (P : W → Type π) where
  pub Keeps-then {ℓ κ} :
      {A : Type ℓ} {B : Type κ} (m : Action W E A) (f : A → Action W E B)
      → Keeps P m
      → ((a : A) → Keeps P (f a))
      → Keeps P (m >>= f)
  Keeps-then m f km kf w h = >>=-state P m f w (λ _ _. km w h) (λ a _. kf a (m w).1 (km w h))

  pub Keeps-attempt {ℓ} : {A : Type ℓ} (m : Action W E A) → Keeps P m → Keeps P (attempt m)
  Keeps-attempt m km w h = rw attempt-state (km w h)

  pub Keeps-discard {ℓ} : {A : Type ℓ} (m : Action W E A) → Keeps P m → Keeps P (discard m)
  unfolding discard
  Keeps-discard m km w h = km w h

  pub Keeps-or_error {ℓ} :
      {A : Type ℓ} (m : Action W E (Option A)) (e : E) → Keeps P m → Keeps P (or_error m e)
  Keeps-or_error m e km w h = rw or_error-state (km w h)

  pub Keeps-ensure : (b : Bool) (e : E) → Keeps P (ensure b e)
  Keeps-ensure b e w h = rw ensure_keeps h

  pub Keeps-if {ℓ} :
      {A : Type ℓ} (b : Bool) (m n : Action W E A)
      → Keeps P m
      → Keeps P n
      → Keeps P (if b then m else n)
  Keeps-if true m n km kn = km
  Keeps-if false m n km kn = kn

module _ {σ ε ℓ κ π} {W : Type σ} {E : Type ε} {A : Type ℓ} {B : Type κ} (Q : B → W → Type π) where
  continue-Ends :
      (r : Result E A × W) (f : A → Action W E B)
      → ((a : A) → r.0 ≡ ok a → Ends Q (f a) r.1)
      → (b : B) → (continue r f).0 ≡ ok b
      → Q b (continue r f).1
  continue-Ends (ok a, w) f rest b h = rest a refl b h
  continue-Ends (err e, w) f rest b h = cc

  pub >>=-Ends :
      (m : Action W E A) (f : A → Action W E B) (w : W)
      → ((a : A) → (m w).0 ≡ ok a → Ends Q (f a) (m w).1)
      → Ends Q (m >>= f) w
  unfolding ◌>>=◌
  >>=-Ends m f w rest b h = continue-Ends (m w) f rest b h

module _ {σ ε κ π} {W : Type σ} {E : Type ε} {B : Type κ} (Q : B → W → Type π) where
  pub ensure-Ends :
      (b : Bool) (e : E) (k : Action W E B) (w : W)
      → (b ≡ true → Ends Q k w)
      → Ends Q (ensure b e >> k) w
  unfolding ensure ◌>>=◌
  ensure-Ends true e k w rest c h = rest refl c h
  ensure-Ends false e k w rest c h = cc
