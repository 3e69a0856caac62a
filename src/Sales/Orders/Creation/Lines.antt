-- ===== src/Sales/Orders/Creation/Lines.antt =====
-- sales/internal/service/order_service.go, `CreateOrder`: what its two loops over the lines of a
-- request find and make.
use zeus_be.Prelude.{
  not-true, ℕ, pos, ltb_ℤ, String, str_eq, eq_iff, to_upper, trim_space, Bool, true, false, not,
  Bool-cases, inl, inr, Option, none, some, List, [], ◌∷◌, All, if◌then◌else◌, ok, >>=-ok,
  ensure-ok, ok-injective, Floats, ◌≡◌, refl, sym, ap, ◌∙◌, subst,
}
use zeus_be.Sales.Model.{SalesOrderItem}
use zeus_be.Sales.Orders.{OrderDeps}
use zeus_be.Sales.Orders.Creation.{
  OrderItemRequest, lookup, is_some, key_of, check_line, check_lines, or_zero, create_items,
}

module _ {W : Type 0} (F : Floats) (D : OrderDeps W F.Float) where
  open F use {Float, zero_f, add_f, mul_f, of_int}

  -- A line has a SKU and asks for something.
  abbrev pub IsLine : OrderItemRequest → Type 0
  IsLine line =
      (str_eq (trim_space line.sku) "" ≡ false) × (ltb_ℤ (pos 0) line.requested_qty ≡ true)

  -- Two SKUs differ, whatever their case and the spaces around them.
  abbrev Differ : String → String → Type 0
  Differ sku other =
      str_eq (to_upper D.clients.upper_rune (trim_space sku))
        (to_upper D.clients.upper_rune (trim_space other))
      ≡ false

  -- The lines have different SKUs, whatever their case.
  abbrev pub AreDistinct : List OrderItemRequest → Type 0
  AreDistinct [] = Unit
  AreDistinct (line ∷ lines) = All (λ other. Differ line.sku other.sku) lines × AreDistinct lines

  -- The items are those of the lines, in order, of one order.
  abbrev pub Matches : ℕ → List OrderItemRequest → List (SalesOrderItem Float) → Type 0
  Matches order_id [] [] = Unit
  Matches order_id [] (item ∷ items) = ⊥
  Matches order_id (line ∷ lines) [] = ⊥
  Matches order_id (line ∷ lines) (item ∷ items) =
      (item.order_id ≡ order_id)
      × (item.sku ≡ trim_space line.sku)
      × (item.requested_qty ≡ line.requested_qty)
      × (item.allocated_qty ≡ pos 0)
      × Matches order_id lines items

  -- Each quantity times its price, added up in order.
  abbrev pub value_of : Float → List (SalesOrderItem Float) → Float
  value_of total [] = total
  value_of total (item ∷ items) =
      value_of (add_f total (mul_f (of_int item.requested_qty) item.unit_price)) items

  abbrev pub value_by : List (String × Float) → Float → List OrderItemRequest → Float
  value_by prices total [] = total
  value_by prices total (line ∷ lines) =
      value_by prices
        (add_f total
          (mul_f (of_int line.requested_qty) (or_zero F D (lookup (key_of F D line.sku) prices))))
        lines

  abbrev IsFresh : List (String × Float) → OrderItemRequest → Type 0
  IsFresh prices line = lookup (key_of F D line.sku) prices ≡ none

  lookup-cons :
      (k key : String) (r : Float) (ps : List (String × Float))
      → lookup key ((k, r) ∷ ps) ≡ none
      → (str_eq k key ≡ false) × (lookup key ps ≡ none)
  unfolding lookup
  lookup-cons k key r ps h = cases (str_eq k key) h
    where
      cases :
          (b : Bool)
          → (if b then some r else lookup key ps) ≡ none
          → (b ≡ false) × (lookup key ps ≡ none)
      cases true g = cc
      cases false g = (refl, g)

  all-IsFresh :
      (k : String) (r : Float) (ps : List (String × Float)) (lines : List OrderItemRequest)
      → All (IsFresh ((k, r) ∷ ps)) lines
      → All (λ other. str_eq k (key_of F D other.sku) ≡ false) lines × All (IsFresh ps) lines
  all-IsFresh k r ps [] h = (tt, tt)
  all-IsFresh k r ps (line ∷ lines) (h, hs) =
      let (apart, fresh) = lookup-cons k (key_of F D line.sku) r ps h in
      let (aparts, freshes) = all-IsFresh k r ps lines hs in ((apart, aparts), (fresh, freshes))

  not-some : (o : Option Float) → not (is_some o) ≡ true → o ≡ none
  not-some none h = refl
  not-some (some a) h = cc

  check_line-ok :
      (prices : List (String × Float)) (line : OrderItemRequest) (w : W) (price : Float)
      → (check_line F D prices line w).0 ≡ ok price
      → IsLine line × IsFresh prices line
  unfolding check_line
  check_line-ok prices line w price h =
      let (named, h₁) = ensure-ok (not (str_eq (trim_space line.sku) "")) _ _ w price h in
      let (positive, h₂) = ensure-ok (ltb_ℤ (pos 0) line.requested_qty) _ _ w price h₁ in
      let (fresh, _) =
        ensure-ok (not (is_some (lookup (key_of F D line.sku) prices))) _ _ w price h₂ in
      (
        (not-true (str_eq (trim_space line.sku) "") named, positive),
        not-some (lookup (key_of F D line.sku) prices) fresh,
      )

  keeps_price :
      (key k : String) (price p : Float) (prices : List (String × Float))
      → lookup key prices ≡ none
      → lookup k prices ≡ some p
      → lookup k ((key, price) ∷ prices) ≡ some p
  unfolding lookup
  keeps_price key k price p prices fresh found = elim (Bool-cases (str_eq key k)) [
    | inl same ↦
        let known = ap (λ x. lookup x prices) ((eq_iff key k).0 same) in
        let clash : none ≡ some p = sym fresh ∙ known ∙ found in cc
    | inr apart ↦ rw apart found
  ]

  lookup_first :
      (key : String) (price : Float) (prices : List (String × Float))
      → lookup key ((key, price) ∷ prices) ≡ some price
  unfolding lookup
  lookup_first key price prices = rw ((eq_iff key key).1 refl)

  -- What the loop over the lines has found when it succeeds.
  pub check_lines-ok :
      (prices : List (String × Float)) (total : Float) (lines : List OrderItemRequest) (w : W)
      (out : List (String × Float) × Float)
      → (check_lines F D prices total lines w).0 ≡ ok out
      → All IsLine lines
        × AreDistinct lines
        × All (IsFresh prices) lines
        × ((k : String) (p : Float) → lookup k prices ≡ some p → lookup k out.0 ≡ some p)
        × (out.1 ≡ value_by out.0 total lines)
  unfolding check_lines
  check_lines-ok prices total [] w out h =
      let same = sym (ok-injective h) in
      (tt, tt, tt, λ k p e. ap (λ o. lookup k o.0) same ∙ e, ap (λ o. o.1) same)
  check_lines-ok prices total (line ∷ lines) w out h =
      let key = key_of F D line.sku in
      let (price, checked, h₁) = >>=-ok (check_line F D prices line) _ w out h in
      let (is_line, fresh) = check_line-ok prices line w price checked in
      let (are_lines, distinct, freshes, kept, value) =
        check_lines-ok ((key, price) ∷ prices) _ lines _ out h₁ in
      let (aparts, olds) = all-IsFresh key price prices lines freshes in
      let found = kept key price (lookup_first key price prices) in
      (
        (is_line, are_lines),
        (aparts, distinct),
        (fresh, olds),
        λ k p e. kept k p (keeps_price key k price p prices fresh e),
        value
            ∙ ap
                (λ o.
                  value_by out.0 (add_f total (mul_f (of_int line.requested_qty) (or_zero F D o)))
                    lines)
                (sym found),
      )

  pub create_items-Matches :
      (order_id : ℕ) (prices : List (String × Float)) (lines : List OrderItemRequest) (w : W)
      (items : List (SalesOrderItem Float))
      → (create_items F D order_id prices lines w).0 ≡ ok items
      → Matches order_id lines items
        × ((total : Float) → value_of total items ≡ value_by prices total lines)
  unfolding create_items
  create_items-Matches order_id prices [] w items h =
      subst (λ is. Matches order_id [] is × ((total : Float) → value_of total is ≡ total))
        (ok-injective h) (tt, λ total. refl)
  create_items-Matches order_id prices (line ∷ lines) w items h =
      let (i, _, h₁) = >>=-ok _ _ w items h in
      let (t, _, h₂) = >>=-ok _ _ _ items h₁ in
      let (_, _, h₃) = >>=-ok _ _ _ items h₂ in
      let (rest, created, h₄) = >>=-ok (create_items F D order_id prices lines) _ _ items h₃ in
      let (matches, value) = create_items-Matches order_id prices lines _ rest created in
      subst
        (λ is.
          Matches order_id (line ∷ lines) is
          × ((total : Float) → value_of total is ≡ value_by prices total (line ∷ lines)))
        (ok-injective h₄) ((refl, refl, refl, refl, matches), λ total. value _)
