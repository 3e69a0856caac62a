-- ===== src/Mrp/Planning/Plan.antt =====
-- mrp/internal/service/production_service.go, PlanProduction: the calls that a production order is
-- planned by.
use Prim.Native.Char.{code}
use Prim.Native.String.{len, ◌∷◌ as char_then, [] as empty}
use zeus_be.Prelude.{
  ◌==◌, ℕ, ℤ, pos, ◌≤◌, ◌≤ℤ◌, String, str_eq, true, any, Bool-cases, inl, inr, List, if◌then◌else◌,
  ok, discard, Runs, Runs-of, pure-Runs, ensure-Runs, discard-Runs, >>=-Runs, ◌≡◌, ◌≢◌, ◌⊎◌, refl,
  sym, ap, ◌∙◌, subst, arith,
}
use zeus_be.Mrp.Readiness.{
  ProductionOrder, ProductionOrderStatus, clear_to_build, shortage, partial, planned, other,
  production_eq, BomExplosionResult, run_bom_explosion, sync_shortages_in_db,
  derive_readiness_status,
}
use zeus_be.Mrp.Readiness.Explosion.{derive-any}
use zeus_be.Mrp.Planning.{
  PlanDeps, CreateProductionOrderRequest, ProductionOrderResponse, is_code_char, all_code_chars,
  reasonable_length, valid_code, valid_quantity, invalidate_readiness_cache, update_if_short,
  check_created, plan_production,
}

-- A letter, a digit, a dash or an underscore.
abbrev IsCodeChar : ℕ → Type 0
IsCodeChar c =
    ((65 ≤ c) × (c ≤ 90))
    ⊎ (((97 ≤ c) × (c ≤ 122)) ⊎ (((48 ≤ c) × (c ≤ 57)) ⊎ ((c ≡ 95) ⊎ (c ≡ 45))))

abbrev IsCode : String → Type 0
IsCode empty = Unit
IsCode (char_then c s) = IsCodeChar (code c) × IsCode s

-- What is asked of a request.
abbrev pub IsValid : CreateProductionOrderRequest → Type 0
IsValid req =
    (1 ≤ len req.product_model_code)
    × (len req.product_model_code ≤ 128)
    × IsCode req.product_model_code
    × (pos 1 ≤ℤ req.target_quantity)
    × (req.target_quantity ≤ℤ pos 1000000)

char-IsCodeChar : (c : ℕ) → is_code_char c ≡ true → IsCodeChar c
char-IsCodeChar c h = ground arith

all-IsCode : (s : String) → all_code_chars s ≡ true → IsCode s
unfolding all_code_chars
all-IsCode empty h = tt
all-IsCode (char_then c s) h = elim (Bool-cases (is_code_char (code c))) [
  | inl good ↦ (char-IsCodeChar (code c) good, all-IsCode s (rw good at h))
  | inr bad ↦ let clash = rw bad at h in cc
]

valid-IsCode : (s : String) → valid_code s ≡ true → IsCode s
unfolding valid_code
valid-IsCode s h = elim (Bool-cases (str_eq s "")) [
  | inl blank ↦ let clash = rw blank at h in cc
  | inr named ↦ all-IsCode s (rw named at h)
]

length-bounds : (s : String) → reasonable_length s ≡ true → (1 ≤ len s) × (len s ≤ 128)
length-bounds s h = ground arith

quantity-bounds : (n : ℤ) → valid_quantity n ≡ true → (pos 1 ≤ℤ n) × (n ≤ℤ pos 1000000)
quantity-bounds n h = ground arith

module _ {W : Type 0} (D : PlanDeps W) where
  -- A status that is not the one of a new order is saved.
  abbrev pub IsUpdated : ℕ → ProductionOrderStatus → W → W → Type 0
  IsUpdated id status w v =
      ((status ≡ clear_to_build) × (v ≡ w))
      ⊎ ((status ≢ clear_to_build)
          × Runs (D.readiness.update_production_order_status id status) w tt v)

  is_clear :
      (s : ProductionOrderStatus) → production_eq s clear_to_build ≡ true → s ≡ clear_to_build
  is_clear clear_to_build h = refl
  is_clear shortage h = cc
  is_clear partial h = cc
  is_clear planned h = cc
  is_clear (other s) h = cc

  update-IsUpdated :
      (id : ℕ) (status : ProductionOrderStatus) (w v : W)
      → Runs (update_if_short D id status) w tt v
      → IsUpdated id status w v
  unfolding update_if_short
  update-IsUpdated id status w v h = elim (Bool-cases (production_eq status clear_to_build)) [
    | inl clear ↦
        let (_, same) = pure-Runs tt tt w v (rw clear at h) in inl (is_clear status clear, sym same)
    | inr short ↦
        inr (λ e. let clash = ap (λ s. production_eq s clear_to_build) e in cc, rw short at h)
  ]

  -- Both entries of the readiness cache are deleted; errors are dropped. A nil id has no entry.
  abbrev pub IsInvalidated : ℕ → W → W → Type 0
  IsInvalidated id w v =
      ((id ≡ 0) × (v ≡ (D.del_readiness w).1))
      ⊎ ((id ≢ 0) × (v ≡ (D.del_readiness_order id (D.del_readiness w).1).1))

  invalidate-IsInvalidated :
      (id : ℕ) (w v : W) → Runs (invalidate_readiness_cache D id) w tt v → IsInvalidated id w v
  unfolding invalidate_readiness_cache
  invalidate-IsInvalidated id w v h =
      let (_, u, deleted, h₁) = >>=-Runs (discard D.del_readiness) _ w tt v h in
      let first = discard-Runs D.del_readiness w u deleted in
      elim (Bool-cases (id == 0)) [
        | inl nil ↦
            let (_, same) = pure-Runs tt tt u v (rw nil at h₁) in
            inl (ground (arith, nil), sym same ∙ first)
        | inr made ↦
            let second = discard-Runs (D.del_readiness_order id) u v (rw made at h₁) in
            inr (ground (arith, made), second ∙ ap (λ x. (D.del_readiness_order id x).1) first)
      ]

  -- The calls past the creation of the order, from one world to another.
  pub record IsChecked (order : ProductionOrder) (w : W) (r : ProductionOrderResponse) (v : W)
      : Type 0 where
    pub results : List BomExplosionResult
    pub exploded : W
    pub synced : W
    pub updated : W
    pub invalidated : W
    pub read : W
    pub explodes : Runs (run_bom_explosion D.readiness order.id) w results exploded
    pub syncs : Runs (sync_shortages_in_db D.readiness order.id results) exploded tt synced
    pub is_status : r.status ≡ (
        if any (λ (x : BomExplosionResult). x.is_shortage) results
        then shortage
        else clear_to_build)
    pub updates : IsUpdated order.id r.status synced updated
    pub invalidates : IsInvalidated order.id updated invalidated
    pub reads : Runs (D.readiness.get_shortages order.id) invalidated r.shortages read
    pub audits : v ≡ (D.publish_audit order read).1
    pub is_order :
        (r.id ≡ order.id)
        × (r.product_model_code ≡ order.product_model_code)
        × (r.target_quantity ≡ order.target_quantity)

  check_created-IsChecked :
      (order : ProductionOrder) (w : W) (r : ProductionOrderResponse) (v : W)
      → Runs (check_created D order) w r v
      → IsChecked order w r v
  unfolding check_created
  check_created-IsChecked order w r v h =
      let (results, w₁, explodes, h₁) =
        >>=-Runs (run_bom_explosion D.readiness order.id) _ w r v h in
      let (_, w₂, syncs, h₂) =
        >>=-Runs (sync_shortages_in_db D.readiness order.id results) _ w₁ r v h₁ in
      let status = derive_readiness_status results in
      let (_, w₃, updates, h₃) = >>=-Runs (update_if_short D order.id status) _ w₂ r v h₂ in
      let (_, w₄, invalidates, h₄) = >>=-Runs (invalidate_readiness_cache D order.id) _ w₃ r v h₃ in
      let (logs, w₅, reads, h₅) = >>=-Runs (D.readiness.get_shortages order.id) _ w₄ r v h₄ in
      let (_, w₆, audits, h₆) = >>=-Runs (discard (D.publish_audit order)) _ w₅ r v h₅ in
      let (same, last) = pure-Runs _ r w₆ v h₆ in
      record {
        results = results;
        exploded = w₁;
        synced = w₂;
        updated = w₃;
        invalidated = w₄;
        read = w₅;
        explodes = explodes;
        syncs = syncs;
        is_status =
            ap (λ (x : ProductionOrderResponse). x.status) (sym same)
            ∙ derive-any D.readiness results;
        updates =
            subst (λ (x : ProductionOrderResponse). IsUpdated order.id x.status w₂ w₃) same
              (update-IsUpdated order.id status w₂ w₃ updates);
        invalidates = invalidate-IsInvalidated order.id w₃ w₄ invalidates;
        reads = reads ∙ ap (λ (x : ProductionOrderResponse). (ok x.shortages, w₅)) same;
        audits = sym last ∙ discard-Runs (D.publish_audit order) w₅ w₆ audits;
        is_order = (
          ap (λ (x : ProductionOrderResponse). x.id) (sym same),
          ap (λ (x : ProductionOrderResponse). x.product_model_code) (sym same),
          ap (λ (x : ProductionOrderResponse). x.target_quantity) (sym same),
        );
      }

  abbrev pub new_order : CreateProductionOrderRequest → ℕ → ProductionOrder
  new_order req id = record {
    id = id;
    product_model_code = req.product_model_code;
    target_quantity = req.target_quantity;
    status = clear_to_build;
  }

  -- A production order that is planned with success had a code of 1 to 128 characters, all of them
  -- letters, digits, dashes and underscores, and a quantity from 1 to 1000000. Planning it makes
  -- these calls, one after the other and none with an error: it creates the order, under a new id and
  -- as clear to build; it explodes it, and stores the shortages of the results; it saves the status,
  -- which is SHORTAGE exactly where one of the results is short, where that is not the one the order
  -- was created with; and it reads the shortages that it returns, once the caches are invalidated. The
  -- audit message comes last, with or without an error.
  pub plan_production-creates :
      (req : CreateProductionOrderRequest) (w : W) (r : ProductionOrderResponse)
      → (plan_production D req w).0 ≡ ok r
      → IsValid req
        × ((id : ℕ) × (t : ℤ) × (w₁ w₂ w₃ w₄ : W) × Runs D.readiness.ctx_err w tt w₁
            × Runs D.readiness.new_uuid w₁ id w₂
            × Runs D.now w₂ t w₃
            × Runs (D.create_production_order (new_order req id) req.scheduled_at t) w₃ tt w₄
            × IsChecked (new_order req id) w₄ r (plan_production D req w).1)
  unfolding plan_production
  plan_production-creates req w r h =
      let model = req.product_model_code in
      let v = (plan_production D req w).1 in
      let (_, w₁, context, h₁) =
        >>=-Runs D.readiness.ctx_err _ w r v (Runs-of (plan_production D req) w r h) in
      let (short, h₂) = ensure-Runs (reasonable_length model) _ _ w₁ r v h₁ in
      let (valid, h₃) = ensure-Runs (valid_code model) _ _ w₁ r v h₂ in
      let (bounded, h₄) = ensure-Runs (valid_quantity req.target_quantity) _ _ w₁ r v h₃ in
      let (id, w₂, fresh, h₅) = >>=-Runs D.readiness.new_uuid _ w₁ r v h₄ in
      let (t, w₃, clock, h₆) = >>=-Runs D.now _ w₂ r v h₅ in
      let (_, w₄, created, h₇) =
        >>=-Runs (D.create_production_order (new_order req id) req.scheduled_at t) _ w₃ r v h₆ in
      let (some_chars, few_chars) = length-bounds model short in
      let (some_units, few_units) = quantity-bounds req.target_quantity bounded in
      (
        (some_chars, few_chars, valid-IsCode model valid, some_units, few_units),
        (
          id,
          t,
          w₁,
          w₂,
          w₃,
          w₄,
          context,
          fresh,
          clock,
          created,
          check_created-IsChecked (new_order req id) w₄ r v h₇,
        ),
      )
