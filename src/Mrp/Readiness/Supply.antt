-- ===== src/Mrp/Readiness/Supply.antt =====
-- mrp/internal/service/readiness_service.go: what is at hand of a part and what is on its way, by
-- what the SCM service, or else the cache, answers.
use zeus_be.Prelude.{
  Action, ℕ, ℤ, pos, add64, sub64, ltb_ℤ, String, str_eq, is_blank, false, Bool-cases, Option, none,
  some, List, [], ◌∷◌, ◌++◌, if◌then◌else◌, ok, attempt, attempt-ok, attempt-some, >>=-ok,
  ensure-ok, ok-injective, ◌≡◌, ◌⊎◌, inl, inr, refl, sym, ap, ◌∙◌, subst,
}
use zeus_be.Mrp.Errors.{MrpError}
use zeus_be.Mrp.Readiness.{
  MrpDeps, is_active, ScmClient, Part, SupplyStatus, draft, approved, in_transit, received,
  partially, void, unknown, SupplyLine, SupplyOrder, allocated_line, allocated_lines,
  allocated_qty_of, active_pos, list_or_none, usable, must, part_inventory, supply_of,
}

-- The quantities that were ordered of a part.
abbrev ordered : String → List SupplyLine → List ℤ
ordered sku [] = []
ordered sku (line ∷ lines) =
    if str_eq line.sku sku then line.ordered_qty ∷ ordered sku lines else ordered sku lines

-- What is left of what was ordered of a part, where something is left.
abbrev left : String → List SupplyLine → List ℤ
left sku [] = []
left sku (line ∷ lines) =
    if str_eq line.sku sku
    then (if ltb_ℤ (pos 0) (sub64 line.ordered_qty line.received_qty)
        then sub64 line.ordered_qty line.received_qty ∷ left sku lines
        else left sku lines)
    else left sku lines

-- What an order still brings: nothing if it is received or void, what is left if it is received in
-- part.
abbrev brings : SupplyStatus → String → List SupplyLine → List ℤ
brings draft sku lines = ordered sku lines
brings approved sku lines = ordered sku lines
brings in_transit sku lines = ordered sku lines
brings partially sku lines = left sku lines
brings received sku lines = []
brings void sku lines = []
brings (unknown s) sku lines = []

abbrev pub arriving : String → List SupplyOrder → List ℤ
arriving sku [] = []
arriving sku (po ∷ orders) = brings po.status sku po.line_items ++ arriving sku orders

abbrev pub sum64 : ℤ → List ℤ → ℤ
sum64 total [] = total
sum64 total (n ∷ ns) = sum64 (add64 total n) ns

sum64-++ : (total : ℤ) (xs ys : List ℤ) → sum64 total (xs ++ ys) ≡ sum64 (sum64 total xs) ys
sum64-++ total [] ys = refl
sum64-++ total (x ∷ xs) ys = sum64-++ (add64 total x) xs ys

lines-left :
    (sku : String) (total : ℤ) (lines : List SupplyLine)
    → allocated_lines partially sku total lines ≡ sum64 total (left sku lines)
unfolding allocated_lines allocated_line
lines-left sku total [] = refl
lines-left sku total (line ∷ lines) = elim (Bool-cases (str_eq line.sku sku)) [
  | inl same ↦ elim (Bool-cases (ltb_ℤ (pos 0) (sub64 line.ordered_qty line.received_qty))) [
    | inl some_left ↦
        rw (same, some_left)
          (lines-left sku (add64 total (sub64 line.ordered_qty line.received_qty)) lines)
    | inr none_left ↦ rw (same, none_left) (lines-left sku total lines)
  ]
  | inr apart ↦ rw apart (lines-left sku total lines)
]

abbrev IsWhole : SupplyStatus → Type 0
IsWhole status =
    (sku : String) (total : ℤ) (line : SupplyLine)
    → allocated_line status sku total line
      ≡ (if str_eq line.sku sku then add64 total line.ordered_qty else total)

lines-ordered :
    (status : SupplyStatus) (sku : String) (total : ℤ) (lines : List SupplyLine)
    → IsWhole status
    → allocated_lines status sku total lines ≡ sum64 total (ordered sku lines)
unfolding allocated_lines
lines-ordered status sku total [] whole = refl
lines-ordered status sku total (line ∷ lines) whole =
    ap (λ n. allocated_lines status sku n lines) (whole sku total line)
    ∙ elim (Bool-cases (str_eq line.sku sku)) [
      | inl same ↦ rw same (lines-ordered status sku (add64 total line.ordered_qty) lines whole)
      | inr apart ↦ rw apart (lines-ordered status sku total lines whole)
    ]

order-brings :
    (status : SupplyStatus) (sku : String) (total : ℤ) (lines : List SupplyLine)
    → (if is_active status then allocated_lines status sku total lines else total)
      ≡ sum64 total (brings status sku lines)
unfolding allocated_line
order-brings draft sku total lines = lines-ordered draft sku total lines λ _ _ _. refl
order-brings approved sku total lines = lines-ordered approved sku total lines λ _ _ _. refl
order-brings in_transit sku total lines = lines-ordered in_transit sku total lines λ _ _ _. refl
order-brings partially sku total lines = lines-left sku total lines
order-brings received sku total lines = refl
order-brings void sku total lines = refl
order-brings (unknown s) sku total lines = refl

-- What is on its way of a part is what the orders still bring of it.
pub allocated_qty_of-arriving :
    (sku : String) (total : ℤ) (orders : List SupplyOrder)
    → allocated_qty_of sku total orders ≡ sum64 total (arriving sku orders)
unfolding allocated_qty_of
allocated_qty_of-arriving sku total [] = refl
allocated_qty_of-arriving sku total (po ∷ orders) =
    ap (λ n. allocated_qty_of sku n orders) (order-brings po.status sku total po.line_items)
    ∙ allocated_qty_of-arriving sku (sum64 total (brings po.status sku po.line_items)) orders
    ∙ sym (sum64-++ total (brings po.status sku po.line_items) (arriving sku orders))

module _ {W : Type 0} (D : MrpDeps W) where
  -- The orders are those that the SCM service lists, none where there is no such service or it
  -- fails.
  abbrev pub IsListed : Option (ScmClient W) → String → W → List SupplyOrder → Type 0
  IsListed none code w orders = orders ≡ []
  IsListed (some scm) code w orders =
      ((scm.list_pos code w).0 ≡ ok orders)
      ⊎ (((os : List SupplyOrder) → ¬ (scm.list_pos code w).0 ≡ ok os) × (orders ≡ []))

  -- The quantity that is cached, or zero where none is.
  abbrev pub IsCached : ℕ → W → ℤ → Type 0
  IsCached part w qty =
      ((D.cached_inventory part w).0 ≡ ok qty)
      ⊎ (((n : ℤ) → ¬ (D.cached_inventory part w).0 ≡ ok n) × (qty ≡ pos 0))

  -- The quantity at hand of a part and its SKU: of the catalog of the SCM service, or else cached and
  -- without a SKU.
  abbrev pub IsSupply : Option (ScmClient W) → ℕ → W → ℤ → String → Type 0
  IsSupply none part w qty sku = (sku ≡ D.uuid_string part) × IsCached part w qty
  IsSupply (some scm) part w qty sku =
      (p : Part) × ((scm.get_part_catalog_by_id part w).0 ≡ ok (some p))
      × (is_blank p.sku ≡ false)
      × (qty ≡ p.stock_qty)
      × (sku ≡ p.sku)

  attempt-none :
      {A : Type 0} (m : Action W MrpError A) (w : W) (a : A)
      → (attempt m w).0 ≡ ok none
      → ¬ (m w).0 ≡ ok a
  attempt-none m w a h e =
      let clash : none ≡ some a = ok-injective (sym h ∙ attempt-ok m w a e) in cc

  pub active_pos-IsListed :
      (scm : Option (ScmClient W)) (code : String) (w : W) (orders : List SupplyOrder)
      → (active_pos D scm code w).0 ≡ ok orders
      → IsListed scm code w orders
  unfolding active_pos
  active_pos-IsListed none code w orders h = sym (ok-injective h)
  active_pos-IsListed (some scm) code w orders h =
      let (found, listed, h₁) = >>=-ok (attempt (scm.list_pos code)) _ w orders h in
      cases found listed (ok-injective h₁)
    where
      cases :
          (found : Option (List SupplyOrder))
          → (attempt (scm.list_pos code) w).0 ≡ ok found
          → list_or_none D found ≡ orders
          → IsListed (some scm) code w orders
      cases none listed same = inr (λ os. attempt-none (scm.list_pos code) w os listed, sym same)
      cases (some os) listed same = inl (attempt-some (scm.list_pos code) w os listed ∙ ap ok same)

  must-usable :
      (found : Option Part) (e : MrpError) (w : W) (part : Part)
      → (must D (usable D found) e w).0 ≡ ok part
      → (found ≡ some part) × (is_blank part.sku ≡ false)
  must-usable none e w part h = cc
  must-usable (some p) e w part h = elim (Bool-cases (is_blank p.sku)) [
    | inl blank ↦ let clash = rw blank at h in cc
    | inr named ↦
        let same = ok-injective (rw named at h) in
        (ap some same, ap (λ x. is_blank x.sku) (sym same) ∙ named)
  ]

  part_inventory-IsCached :
      (part : ℕ) (cached : Option ℤ) (w u : W) (qty : ℤ)
      → (attempt (D.cached_inventory part) w).0 ≡ ok cached
      → (part_inventory D part cached u).0 ≡ ok qty
      → IsCached part w qty
  unfolding part_inventory
  part_inventory-IsCached part (some n) w u qty told h =
      inl (attempt-some (D.cached_inventory part) w n told ∙ h)
  part_inventory-IsCached part none w u qty told h =
      let (_, _, h₁) = >>=-ok _ _ u qty h in
      inr (λ n. attempt-none (D.cached_inventory part) w n told, sym (ok-injective h₁))

  pub supply_of-IsSupply :
      (scm : Option (ScmClient W)) (part : ℕ) (w : W) (supply : ℤ × String)
      → (supply_of D scm part w).0 ≡ ok supply
      → IsSupply scm part w supply.0 supply.1
  unfolding supply_of
  supply_of-IsSupply (some scm) part w supply h =
      let (found, got, h₁) = >>=-ok (scm.get_part_catalog_by_id part) _ w supply h in
      let (p, made, h₂) = >>=-ok (must D (usable D found) _) _ _ supply h₁ in
      let (_, _, h₃) = >>=-ok _ _ _ supply h₂ in
      let (_, _, h₄) = >>=-ok _ _ _ supply h₃ in
      let (same, named) = must-usable found _ _ p made in
      let built = ok-injective h₄ in
      (p, got ∙ ap ok same, named, sym (ap (λ x. x.0) built), sym (ap (λ x. x.1) built))
  supply_of-IsSupply none part w supply h =
      let (_, h₁) = ensure-ok _ _ _ w supply h in
      let (cached, told, h₂) = >>=-ok (attempt (D.cached_inventory part)) _ w supply h₁ in
      let (qty, found, h₃) = >>=-ok (part_inventory D part cached) _ _ supply h₂ in
      let built = ok-injective h₃ in
      (
        sym (ap (λ x. x.1) built),
        subst (IsCached part w) (ap (λ x. x.0) built)
            (part_inventory-IsCached part cached w _ qty told found),
      )
