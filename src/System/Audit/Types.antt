-- ===== src/System/Audit/Types.antt =====
-- system/internal/service/action_type_service.go, `IsValid`: which types of action are known, by the
-- map of the service, the shared cache and the table.
use zeus_be.Prelude.{
  String, str_eq, true, false, inl, inr, Option, none, some, ok, Action, attempt, attempt-some,
  attempt-ok, attempt-state, Runs, Runs-of, >>=-Runs, pure-Runs, Result, err, sym, Bool, Bool-cases,
  List, [], ◌∷◌, eq_iff, ◌>>=◌, ok-injective, ◌≡◌, ◌⊎◌, refl, ap, ◌∙◌, subst,
}
use zeus_be.System.Errors.{SystemError}
use zeus_be.System.Audit.{
  AuditDeps, around, if_exists, or_exists, or_asked, type_in, Local, lift, is_valid,
}

module _ {W : Type 0} (D : AuditDeps W) where
  -- What a map says of a name, by its first entry for it.
  abbrev pub Says : List (String × Bool) → String → Bool → Type 0
  Says [] name b = ⊥
  Says ((k, v) ∷ ps) name b = ((k ≡ name) × (v ≡ b)) ⊎ (¬ k ≡ name × Says ps name b)

  abbrev pub IsSilent : List (String × Bool) → String → Type 0
  IsSilent [] name = Unit
  IsSilent ((k, v) ∷ ps) name = ¬ k ≡ name × IsSilent ps name

  -- The shared cache does not say that there is such a type, and the table does. `v` is the world
  -- afterwards.
  abbrev pub IsInTable : String → W → W → Type 0
  IsInTable name w v =
      ¬ (D.cached_type_valid name w).0 ≡ ok true
      × Runs (D.type_exists name) (D.cached_type_valid name w).1 true v

  -- The name is that of a type of action: by the map of the service, or else by the shared cache, or
  -- else by the table. `v` is the world afterwards.
  abbrev pub IsType : String → Local W → W → Type 0
  IsType name l v =
      (Says l.types name true × (v ≡ l.world))
      ⊎ (IsSilent l.types name
          × (Runs (D.cached_type_valid name) l.world true v ⊎ IsInTable name l.world v))

  around-Runs :
      {A : Type 0} (types : List (String × Bool)) (r : Result SystemError A × W) (a : A)
      (l : Local W)
      → around types r ≡ (ok a, l)
      → r ≡ (ok a, l.world)
  around-Runs types (ok b, w) a l h =
      let same : b ≡ a = ok-injective (ap (λ p. p.0) h) in
      let world : w ≡ l.world = ap (λ p. p.1.world) h in cc
  around-Runs types (err e, w) a l h = let clash = ap (λ p. p.0) h in cc

  lift-Runs :
      {A : Type 0} (m : Action W SystemError A) (l : Local W) (a : A) (k : Local W)
      → Runs (lift m) l a k
      → Runs m l.world a k.world
  unfolding lift
  lift-Runs m l a k h = around-Runs l.types (m l.world) a k h

  around-world :
      {A : Type 0} (types : List (String × Bool)) (r : Result SystemError A × W)
      → (around types r).1.world ≡ r.1
  around-world types (ok a, w) = refl
  around-world types (err e, w) = refl

  around-told :
      {A : Type 0} (types : List (String × Bool)) (r : Result SystemError A × W)
      → (around types r).0 ≡ r.0
  around-told types (ok a, w) = refl
  around-told types (err e, w) = refl

  if_exists-true :
      (name : String) (b : Bool) (l k : Local W)
      → Runs (if_exists D name b) l true k
      → (b ≡ true) × (k.world ≡ l.world)
  unfolding ◌>>=◌
  if_exists-true name true l k h = (refl, sym (ap (λ p. p.1.world) h))
  if_exists-true name false l k h = let clash = ok-injective (ap (λ p. p.0) h) in cc

  exists-true :
      (name : String) (l k : Local W)
      → Runs (lift (D.type_exists name) >>= if_exists D name) l true k
      → Runs (D.type_exists name) l.world true k.world
  exists-true name l k h =
      let (b, m, asked, h₁) = >>=-Runs _ _ l true k h in
      let (there, kept) = if_exists-true name b m k h₁ in
      lift-Runs (D.type_exists name) l true m (asked ∙ ap (λ x. (ok x, m)) there)
      ∙ ap (λ x. (ok true, x)) (sym kept)

  cached-told :
      (name : String) (l m : Local W) (cached : Option Bool)
      → Runs (attempt (lift (D.cached_type_valid name))) l cached m
      → (m.world ≡ (D.cached_type_valid name l.world).1)
        × ((D.cached_type_valid name l.world).0 ≡ ok true → cached ≡ some true)
        × (cached ≡ some true → (D.cached_type_valid name l.world).0 ≡ ok true)
  unfolding lift
  cached-told name l m cached h =
      let call = lift (D.cached_type_valid name) in
      let r = D.cached_type_valid name l.world in
      let told = ap (λ p. p.0) h in
      (
        ap (λ p. p.1.world) (sym h)
            ∙ ap (λ x. x.world) (attempt-state call l)
            ∙ around-world l.types r,
        λ told_true.
            ok-injective (sym told ∙ attempt-ok call l true (around-told l.types r ∙ told_true)),
        λ told_true.
            sym (around-told l.types r) ∙ attempt-some call l true (told ∙ ap ok told_true),
      )

  remembered :
      (name : String) (m k : Local W)
      → Runs (or_exists D name (some true)) m true k
      → m.world ≡ k.world
  unfolding ◌>>=◌
  remembered name m k h = ap (λ p. p.1.world) h

  or_exists-true :
      (name : String) (l m k : Local W) (cached : Option Bool)
      → Runs (attempt (lift (D.cached_type_valid name))) l cached m
      → Runs (or_exists D name cached) m true k
      → Runs (D.cached_type_valid name) l.world true k.world ⊎ IsInTable name l.world k.world
  or_exists-true name l m k cached asked h =
      let (world, to, from) = cached-told name l m cached asked in cases world cached to from h
    where
      cases :
          m.world ≡ (D.cached_type_valid name l.world).1
          → (c : Option Bool) → ((D.cached_type_valid name l.world).0 ≡ ok true → c ≡ some true)
          → (c ≡ some true → (D.cached_type_valid name l.world).0 ≡ ok true)
          → Runs (or_exists D name c) m true k
          → Runs (D.cached_type_valid name) l.world true k.world ⊎ IsInTable name l.world k.world
      cases world (some true) to from h = inl (
          Runs-of (D.cached_type_valid name) l.world true (from refl)
          ∙ ap (λ x. (ok true, x)) (sym world ∙ remembered name m k h))
      cases world (some false) to from h = inr (
        λ e. let clash = to e in cc,
        subst (λ x. Runs (D.type_exists name) x true k.world) world (exists-true name m k h),
      )
      cases world none to from h = inr (
        λ e. let clash = to e in cc,
        subst (λ x. Runs (D.type_exists name) x true k.world) world (exists-true name m k h),
      )

  some-injective : {a b : Bool} → ◌≡◌ {A = Option Bool} (some a) (some b) → a ≡ b
  some-injective h = cc

  differs : (k name : String) → str_eq k name ≡ false → ¬ k ≡ name
  differs k name h e = let same = (eq_iff k name).1 e in cc

  type_in-Says :
      (name : String) (ps : List (String × Bool)) (b : Bool)
      → type_in name ps ≡ some b
      → Says ps name b
  type_in-Says name [] b h = cc
  type_in-Says name ((k, v) ∷ ps) b h = elim (Bool-cases (str_eq k name)) [
    | inl same ↦ let found = rw same at h in inl ((eq_iff k name).0 same, some-injective found)
    | inr apart ↦
        let found = rw apart at h in inr (differs k name apart, type_in-Says name ps b found)
  ]

  type_in-IsSilent :
      (name : String) (ps : List (String × Bool)) → type_in name ps ≡ none → IsSilent ps name
  type_in-IsSilent name [] h = tt
  type_in-IsSilent name ((k, v) ∷ ps) h = elim (Bool-cases (str_eq k name)) [
    | inl same ↦ let found = rw same at h in cc
    | inr apart ↦
        let found = rw apart at h in (differs k name apart, type_in-IsSilent name ps found)
  ]

  or_asked-IsType :
      (name : String) (l k : Local W) (known : Option Bool)
      → type_in name l.types ≡ known
      → Runs (or_asked D name known) l true k
      → IsType name l k.world
  or_asked-IsType name l k (some valid) e h =
      let (valid_name, same) = pure-Runs valid true l k h in
      inl (type_in-Says name l.types true (e ∙ ap some valid_name), ap (λ x. x.world) (sym same))
  or_asked-IsType name l k none e h =
      let (cached, m, asked, h₁) = >>=-Runs _ _ l true k h in
      inr (type_in-IsSilent name l.types e, or_exists-true name l m k cached asked h₁)

  pub is_valid-IsType :
      (name : String) (l : Local W)
      → (is_valid D name l).0 ≡ ok true
      → IsType name l (is_valid D name l).1.world
  unfolding is_valid
  is_valid-IsType name l h =
      or_asked-IsType name l _ (type_in name l.types) refl (Runs-of (is_valid D name) l true h)

  pub lift-ok :
      {A : Type 0} (m : Action W SystemError A) (l : Local W) (a : A)
      → (lift m l).0 ≡ ok a
      → (m l.world).0 ≡ ok a
  unfolding lift
  lift-ok m l a h = sym (around-told l.types (m l.world)) ∙ h
