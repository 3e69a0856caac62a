-- ===== src/Mrp/Readiness/Explosion.antt =====
-- mrp/internal/service/readiness_service.go, `RunBOMExplosion` and `buildReadinessRow`: what the
-- results say of the bill of materials, and the row of the results.
use zeus_be.Prelude.{
  ensure-ok, ℕ, ℤ, pos, ◌<ℤ◌, add64, mul64, ltb_ℤ, true, any, Option, none, some, List, [], ◌∷◌,
  if◌then◌else◌, ok, ok-injective, ◌∙◌, sym, ap, subst, ◌≡◌, refl, arith, >>=-ok, >>=-Ends,
  Bool-cases, inl, inr,
}
use zeus_be.Mrp.Readiness.Supply.{
  IsSupply, IsListed, arriving, sum64, allocated_qty_of-arriving, active_pos-IsListed,
  supply_of-IsSupply,
}
use zeus_be.Mrp.Readiness.{
  active_pos, supply_of, MrpDeps, ProductionOrder, clear_to_build, shortage, BomEntry,
  BomExplosionResult, SupplyOrder, ReadinessMatrixRow, explode_entry, explode_entries, explode_bom,
  explode_order, run_bom_explosion, derive_readiness_status, build_row, build_readiness_row,
}

module _ {W : Type 0} (D : MrpDeps W) where
  -- A result answers an entry of the bill, from a world on: it is of its part, asks for a positive
  -- quantity, the quantity for one unit times the units of the order, says what is at hand of the
  -- part and what the orders still bring of it, and is short exactly where both together are less.
  abbrev pub Answers :
      ProductionOrder → List SupplyOrder → BomEntry → W → BomExplosionResult → Type 0
  Answers order orders entry w result =
      (result.part_id ≡ entry.component_part_id)
      × (result.total_required_qty ≡ mul64 entry.required_quantity_per_unit order.target_quantity)
      × (pos 0 <ℤ result.total_required_qty)
      × IsSupply D D.scm_client entry.component_part_id w result.available_qty result.component_sku
      × (result.allocated_qty ≡ sum64 (pos 0) (arriving result.component_sku orders))
      × (result.is_shortage
          ≡ ltb_ℤ (add64 result.available_qty result.allocated_qty) result.total_required_qty)

  -- In order, one result for each entry, each from the world that the one before has left.
  abbrev pub AllAnswer :
      ProductionOrder → List SupplyOrder → List BomEntry → W → List BomExplosionResult → Type 0
  AllAnswer order orders [] w [] = Unit
  AllAnswer order orders [] w (result ∷ results) = ⊥
  AllAnswer order orders (entry ∷ entries) w [] = ⊥
  AllAnswer order orders (entry ∷ entries) w (result ∷ results) =
      Answers order orders entry w result
      × AllAnswer order orders entries (explode_entry D order orders entry w).1 results

  explode_entry-Answers :
      (order : ProductionOrder) (orders : List SupplyOrder) (entry : BomEntry) (w : W)
      (result : BomExplosionResult)
      → (explode_entry D order orders entry w).0 ≡ ok result
      → Answers order orders entry w result
  unfolding explode_entry
  explode_entry-Answers order orders entry w result h =
      let (positive, h₁) = ensure-ok _ _ _ w result h in
      let (supply, supplied, h₂) = >>=-ok (supply_of D D.scm_client _) _ w result h₁ in
      subst (Answers order orders entry w) (ok-injective h₂) (
        refl,
        refl,
        less (pos 0) _ positive,
        supply_of-IsSupply D D.scm_client entry.component_part_id w supply supplied,
        allocated_qty_of-arriving supply.1 (pos 0) orders,
        refl,
      )
    where
      less : (a b : ℤ) → ltb_ℤ a b ≡ true → a <ℤ b
      less a b h = ground arith

  explode_entries-Answer :
      (order : ProductionOrder) (orders : List SupplyOrder) (entries : List BomEntry) (w : W)
      (results : List BomExplosionResult)
      → (explode_entries D order orders entries w).0 ≡ ok results
      → AllAnswer order orders entries w results
  unfolding explode_entries
  explode_entries-Answer order orders [] w results h =
      subst (AllAnswer order orders [] w) (ok-injective h) tt
  explode_entries-Answer order orders (entry ∷ entries) w results h =
      let (first, one, h₁) = >>=-ok (explode_entry D order orders entry) _ w results h in
      let (rest, more, h₂) = >>=-ok (explode_entries D order orders entries) _ _ results h₁ in
      subst (AllAnswer order orders (entry ∷ entries) w) (ok-injective h₂) (
        explode_entry-Answers order orders entry w first one,
        explode_entries-Answer order orders entries _ rest more,
      )

  -- What is made of a bill that was read: the orders are listed, and then the entries are answered.
  abbrev pub FromBill : ProductionOrder → List BomEntry → W → List BomExplosionResult → Type 0
  FromBill order [] w results = results ≡ []
  FromBill order (entry ∷ entries) w results =
      (orders : List SupplyOrder) × IsListed D D.scm_client order.product_model_code w orders
      × AllAnswer order orders (entry ∷ entries)
          (active_pos D D.scm_client order.product_model_code w).1 results

  explode_bom-FromBill :
      (order : ProductionOrder) (entries : List BomEntry) (w : W)
      (results : List BomExplosionResult)
      → (explode_bom D order entries w).0 ≡ ok results
      → FromBill order entries w results
  unfolding explode_bom
  explode_bom-FromBill order [] w results h = sym (ok-injective h)
  explode_bom-FromBill order (entry ∷ entries) w results h =
      let code = order.product_model_code in
      let (orders, listed, h₁) = >>=-ok (active_pos D D.scm_client code) _ w results h in
      (
        orders,
        active_pos-IsListed D D.scm_client code w orders listed,
        explode_entries-Answer order orders (entry ∷ entries) _ results h₁,
      )

  -- What the explosion gives where the order is not there, and where it is.
  abbrev pub Explained : Option ProductionOrder → W → List BomExplosionResult → Type 0
  Explained none w results = results ≡ []
  Explained (some order) w results =
      (entries : List BomEntry) × ((D.get_bom order.product_model_code w).0 ≡ ok entries)
      × FromBill order entries (D.get_bom order.product_model_code w).1 results

  explode_order-Explained :
      (order : Option ProductionOrder) (w : W) (results : List BomExplosionResult)
      → (explode_order D order w).0 ≡ ok results
      → Explained order w results
  unfolding explode_order
  explode_order-Explained none w results h = sym (ok-injective h)
  explode_order-Explained (some order) w results h =
      let (entries, got, h₁) = >>=-ok (D.get_bom order.product_model_code) _ w results h in
      (entries, got, explode_bom-FromBill order entries _ results h₁)

  -- An explosion that succeeds has read the order. Where there is none it has no result; else it
  -- has read the bill of the order's model and has one result for each entry of it, in order, of
  -- its part, for the positive quantity that the order's units need. The quantity at hand is the
  -- stock in the catalog of the SCM service, or where there is no such service the cached one, zero
  -- where none is cached. The quantity on its way is the sum, as an `int`, of what the listed orders
  -- still bring of the part's SKU: the whole quantity of a line where the order is a draft, approved
  -- or in transit, and what is left of it, if anything, where it is received in part. The result is
  -- short exactly where both together are less than what is needed.
  pub run_bom_explosion-Explained :
      (i : ℕ) (w : W) (results : List BomExplosionResult)
      → (run_bom_explosion D i w).0 ≡ ok results
      → (order : Option ProductionOrder) × ((D.get_production_order i (D.ctx_err w).1).0 ≡ ok order)
        × Explained order (D.get_production_order i (D.ctx_err w).1).1 results
  unfolding run_bom_explosion
  run_bom_explosion-Explained i w results h =
      let (_, _, h₁) = >>=-ok D.ctx_err _ w results h in
      let (_, h₂) = ensure-ok _ _ _ _ results h₁ in
      let (order, got, h₃) = >>=-ok (D.get_production_order i) _ _ results h₂ in
      (order, got, explode_order-Explained order _ results h₃)

  -- SHORTAGE where a result is short.
  pub derive-any :
      (results : List BomExplosionResult)
      → derive_readiness_status results ≡ (
          if any (λ (r : BomExplosionResult). r.is_shortage) results
          then shortage
          else clear_to_build)
  unfolding derive_readiness_status
  derive-any [] = refl
  derive-any (result ∷ results) = elim (Bool-cases result.is_shortage) [
    | inl short ↦ rw short refl
    | inr enough ↦ rw enough (derive-any results)
  ]

  abbrev pub IsRowOf : ProductionOrder → ReadinessMatrixRow → Type 0
  IsRowOf order row =
      (row.order_id ≡ order.id)
      × (row.target_build ≡ order.product_model_code)
      × (row.quantity ≡ order.target_quantity)
      × (row.status ≡ (
          if any (λ (r : BomExplosionResult). r.is_shortage) row.deficit_breakdown
          then shortage
          else clear_to_build))

  some-injective :
      {a b : ReadinessMatrixRow} → ◌≡◌ {A = Option ReadinessMatrixRow} (some a) (some b) → a ≡ b
  some-injective h = cc

  build_row-IsRowOf :
      (order : ProductionOrder) (i : ℕ) (w : W) (row : ReadinessMatrixRow)
      → (build_row D (some order) i w).0 ≡ ok (some row)
      → IsRowOf order row
  unfolding build_row
  build_row-IsRowOf order i w row done =
      let Q : Option ReadinessMatrixRow → W → Type 0 =
        λ found _. (row : ReadinessMatrixRow) → found ≡ some row → IsRowOf order row in
      (>>=-Ends Q _ _ w λ results _. >>=-Ends Q _ _ _ λ _ _. >>=-Ends Q _ _ _ λ _ _ found h row e.
          subst (λ r. IsRowOf order r) (some-injective (ok-injective h ∙ e))
            (refl, refl, refl, derive-any results))
        (some row) done row refl

  built :
      (order : Option ProductionOrder) (i : ℕ) (w : W) (row : ReadinessMatrixRow)
      → (build_row D order i w).0 ≡ ok (some row)
      → (o : ProductionOrder) × (order ≡ some o) × IsRowOf o row
  unfolding build_row
  built none i w row h = cc
  built (some order) i w row h = (order, refl, build_row-IsRowOf order i w row h)

  -- A row that is built is of the order that was read, and its status is SHORTAGE exactly where one
  -- of its results is short, and CLEAR_TO_BUILD otherwise.
  pub build_readiness_row-IsRowOf :
      (i : ℕ) (w : W) (row : ReadinessMatrixRow)
      → (build_readiness_row D i w).0 ≡ ok (some row)
      → (order : ProductionOrder) × ((D.get_production_order i w).0 ≡ ok (some order))
        × IsRowOf order row
  unfolding build_readiness_row
  build_readiness_row-IsRowOf i w row done =
      let (order, got, h) = >>=-ok (D.get_production_order i) _ w (some row) done in
      let (o, e, is_row) = built order i _ row h in (o, got ∙ ap ok e, is_row)
