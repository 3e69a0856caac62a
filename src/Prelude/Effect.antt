-- ===== src/Prelude/Effect.antt =====
-- A Go call on some world: it returns a value or an error, and the world that it leaves behind,
-- also when it fails. Rules to reason about the end of a chain of calls.
use mathlib.Core.Path.{◌≡◌, refl, ap}
use mathlib.Core.Bool.{Bool, true, false}
use mathlib.Core.Option.{Option, none, some}

pub data Result {ε ℓ} (E : Type ε) (A : Type ℓ) : Type (ε ⊔ ℓ) where
  ok : A → Result E A
  err : E → Result E A

pub ok-injective {ε ℓ} :
    {E : Type ε} {A : Type ℓ} {a b : A} → ◌≡◌ {A = Result E A} (ok a) (ok b) → a ≡ b
ok-injective h = cc

-- What a call returns that returns an error only.
abbrev pub Done : Type 0
Done = Unit

abbrev pub Action {σ ε ℓ} : Type σ → Type ε → Type ℓ → Type (σ ⊔ ε ⊔ ℓ)
Action W E A = W → Result E A × W

module _ {σ ε ℓ} {W : Type σ} {E : Type ε} {A : Type ℓ} where
  abbrev pub pure : A → Action W E A
  pure a w = (ok a, w)

  abbrev pub raise : E → Action W E A
  raise e w = (err e, w)

  abbrev pub as_option : Result E A × W → Result E (Option A) × W
  as_option (ok a, w) = (ok (some a), w)
  as_option (err e, w) = (ok none, w)

  -- `x, _ := f()`: the error is dropped.
  unfoldable pub attempt : Action W E A → Action W E (Option A)
  attempt m w = as_option (m w)

  -- `_ = f()`, where nothing of the result is used.
  unfoldable pub discard : Action W E A → Action W E Done
  discard m w = (ok tt, (m w).1)

  abbrev pub some_or : Result E (Option A) × W → E → Result E A × W
  some_or (ok (some a), w) e = (ok a, w)
  some_or (ok none, w) e = (err e, w)
  some_or (err e', w) e = (err e, w)

  -- `a, err := f(); if err != nil || a == nil { return e }`
  unfoldable pub or_error : Action W E (Option A) → E → Action W E A
  or_error m e w = some_or (m w) e

  some_or-state : (r : Result E (Option A) × W) (e : E) → (some_or r e).1 ≡ r.1
  some_or-state (ok (some a), w) e = refl
  some_or-state (ok none, w) e = refl
  some_or-state (err e', w) e = refl

  some_or-ok :
      (r : Result E (Option A) × W) (e : E) (a : A) → (some_or r e).0 ≡ ok a → r.0 ≡ ok (some a)
  some_or-ok (ok (some b), w) e a h = cc
  some_or-ok (ok none, w) e a h = cc
  some_or-ok (err e', w) e a h = cc

  pub or_error-state : (m : Action W E (Option A)) (e : E) (w : W) → (or_error m e w).1 ≡ (m w).1
  unfolding or_error
  or_error-state m e w = some_or-state (m w) e

  pub or_error-ok :
      (m : Action W E (Option A)) (e : E) (w : W) (a : A)
      → (or_error m e w).0 ≡ ok a
      → (m w).0 ≡ ok (some a)
  unfolding or_error
  or_error-ok m e w a h = some_or-ok (m w) e a h

  as_option-state : (r : Result E A × W) → (as_option r).1 ≡ r.1
  as_option-state (ok a, w) = refl
  as_option-state (err e, w) = refl

  as_option-ok : (r : Result E A × W) (a : A) → r.0 ≡ ok a → (as_option r).0 ≡ ok (some a)
  as_option-ok (ok b, w) a h = cc
  as_option-ok (err e, w) a h = cc

  pub attempt-ok :
      (m : Action W E A) (w : W) (a : A) → (m w).0 ≡ ok a → (attempt m w).0 ≡ ok (some a)
  unfolding attempt
  attempt-ok m w a h = as_option-ok (m w) a h

  as_option-some : (r : Result E A × W) (a : A) → (as_option r).0 ≡ ok (some a) → r.0 ≡ ok a
  as_option-some (ok b, w) a h = cc
  as_option-some (err e, w) a h = cc

  -- What is there after an attempt was returned by the call.
  pub attempt-some :
      (m : Action W E A) (w : W) (a : A) → (attempt m w).0 ≡ ok (some a) → (m w).0 ≡ ok a
  unfolding attempt
  attempt-some m w a h = as_option-some (m w) a h

  as_option_total : (r : Result E A × W) → (o : Option A) × ((as_option r).0 ≡ ok o)
  as_option_total (ok a, w) = (some a, refl)
  as_option_total (err e, w) = (none, refl)

  pub attempt_total : (m : Action W E A) (w : W) → (o : Option A) × ((attempt m w).0 ≡ ok o)
  unfolding attempt
  attempt_total m w = as_option_total (m w)

  pub attempt-state : (m : Action W E A) (w : W) → (attempt m w).1 ≡ (m w).1
  unfolding attempt
  attempt-state m w = as_option-state (m w)

module _ {σ ε} {W : Type σ} {E : Type ε} where
  -- `if !b { return e }`
  unfoldable pub ensure : Bool → E → Action W E Done
  ensure true e w = (ok tt, w)
  ensure false e w = (err e, w)

  pub ensure_keeps : (b : Bool) (e : E) (w : W) → (ensure b e w).1 ≡ w
  unfolding ensure
  ensure_keeps true e w = refl
  ensure_keeps false e w = refl

  pub ensure_holds : (b : Bool) (e : E) (w : W) → (ensure b e w).0 ≡ ok tt → b ≡ true
  unfolding ensure
  ensure_holds true e w h = refl
  ensure_holds false e w h = cc

module _ {σ ε ℓ κ} {W : Type σ} {E : Type ε} {A : Type ℓ} {B : Type κ} where
  abbrev pub continue : Result E A × W → (A → Action W E B) → Result E B × W
  continue (ok a, w) f = f a w
  continue (err e, w) f = (err e, w)

  infixl 5 ◌>>=◌ ◌>>◌
  unfoldable pub ◌>>=◌ : Action W E A → (A → Action W E B) → Action W E B
  ◌>>=◌ m f w = continue (m w) f

  abbrev pub ◌>>◌ : Action W E A → Action W E B → Action W E B
  m >> k = m >>= λ _. k

  continue-state {π} :
      (P : W → Type π) (r : Result E A × W) (f : A → Action W E B)
      → ((e : E) → r.0 ≡ err e → P r.1)
      → ((a : A) → r.0 ≡ ok a → P (f a r.1).1)
      → P (continue r f).1
  continue-state P (ok a, w) f failed done = done a refl
  continue-state P (err e, w) f failed done = failed e refl

  -- A property of the world at the end of a chain holds if it holds where the first call fails,
  -- and at the end of the rest of the chain where it succeeds.
  pub >>=-state {π} :
      (P : W → Type π) (m : Action W E A) (f : A → Action W E B) (w : W)
      → ((e : E) → (m w).0 ≡ err e → P (m w).1)
      → ((a : A) → (m w).0 ≡ ok a → P (f a (m w).1).1)
      → P ((m >>= f) w).1
  unfolding ◌>>=◌
  >>=-state P m f w failed done = continue-state P (m w) f failed done

  continue-ok :
      (r : Result E A × W) (f : A → Action W E B) (b : B)
      → (continue r f).0 ≡ ok b
      → (a : A) × (r.0 ≡ ok a) × ((f a r.1).0 ≡ ok b)
  continue-ok (ok a, w) f b h = (a, refl, h)
  continue-ok (err e, w) f b h = cc

  -- A chain succeeds only if each of its calls does.
  pub >>=-ok :
      (m : Action W E A) (f : A → Action W E B) (w : W) (b : B)
      → ((m >>= f) w).0 ≡ ok b
      → (a : A) × ((m w).0 ≡ ok a) × ((f a (m w).1).0 ≡ ok b)
  unfolding ◌>>=◌
  >>=-ok m f w b h = continue-ok (m w) f b h

  continue-run :
      (r : Result E A × W) (f : A → Action W E B) (a : A) → r.0 ≡ ok a → continue r f ≡ f a r.1
  continue-run (ok b, w) f a h = let same : b ≡ a = cc in ap (λ c. f c w) same
  continue-run (err e, w) f a h = cc

  -- Past a call that succeeds, a chain is the rest of it.
  pub >>=-run :
      (m : Action W E A) (f : A → Action W E B) (w : W) (a : A)
      → (m w).0 ≡ ok a
      → (m >>= f) w ≡ f a (m w).1
  unfolding ◌>>=◌
  >>=-run m f w a h = continue-run (m w) f a h

  continue-err :
      (r : Result E A × W) (f : A → Action W E B) (e : E) → r.0 ≡ err e → (continue r f).0 ≡ err e
  continue-err (ok a, w) f e h = cc
  continue-err (err e', w) f e h = cc

  -- A chain fails with the error of its first call.
  pub >>=-err :
      (m : Action W E A) (f : A → Action W E B) (w : W) (e : E)
      → (m w).0 ≡ err e
      → ((m >>= f) w).0 ≡ err e
  unfolding ◌>>=◌
  >>=-err m f w e h = continue-err (m w) f e h

  some_or-err :
      (r : Result E (Option A) × W) (e : E) (f : A → Action W E B)
      → ((a : A) → r.0 ≡ ok (some a) → (f a r.1).0 ≡ err e)
      → (continue (some_or r e) f).0 ≡ err e
  some_or-err (ok (some a), w) e f rest = rest a refl
  some_or-err (ok none, w) e f rest = refl
  some_or-err (err e', w) e f rest = refl

  -- A chain that turns the failure of its first call into an error fails with it if its rest does.
  pub or_error-err :
      (m : Action W E (Option A)) (e : E) (f : A → Action W E B) (w : W)
      → ((a : A) → (m w).0 ≡ ok (some a) → (f a (m w).1).0 ≡ err e)
      → ((or_error m e >>= f) w).0 ≡ err e
  unfolding ◌>>=◌ or_error
  or_error-err m e f w rest = some_or-err (m w) e f rest

module _ {σ ε κ} {W : Type σ} {E : Type ε} {B : Type κ} where
  pub ensure-ok :
      (b : Bool) (e : E) (k : Action W E B) (w : W) (c : B)
      → ((ensure b e >> k) w).0 ≡ ok c
      → (b ≡ true) × ((k w).0 ≡ ok c)
  unfolding ensure ◌>>=◌
  ensure-ok true e k w c h = (refl, h)
  ensure-ok false e k w c h = cc

  pub ensure-run :
      (b : Bool) (e : E) (k : Action W E B) (w : W) → b ≡ true → (ensure b e >> k) w ≡ k w
  unfolding ensure ◌>>=◌
  ensure-run true e k w h = refl
  ensure-run false e k w h = cc

  pub ensure-state {π} :
      (P : W → Type π) (b : Bool) (e : E) (k : Action W E B) (w : W)
      → (b ≡ false → P w)
      → (b ≡ true → P (k w).1)
      → P ((ensure b e >> k) w).1
  unfolding ensure ◌>>=◌
  ensure-state P true e k w failed done = done refl
  ensure-state P false e k w failed done = failed refl
