-- ===== src/Scm/Inventory/Stocks/Suppliers.antt =====
-- scm/internal/service/inventory_service.go, `hydrateStockSuppliers`: reading each supplier once.
use zeus_be.Prelude.{
  ℕ, ◌==◌, String, Bool, true, false, Bool-cases, inl, inr, Option, none, some, List, [], ◌∷◌,
  Action, Result, ok, err, pure, ◌>>=◌, >>=-run, >>=-err, ◌≡◌, refl, sym, ap, ◌∙◌, arith,
}
use zeus_be.Scm.Errors.{ScmError}
use zeus_be.Scm.Inventory.{InventoryDeps, StockRow, Supplier, looked_up}
use zeus_be.Scm.Inventory.Stocks.{
  named, name_or_read, name_for, hydrate_from, hydrate_stock_suppliers,
}

module _ {R : Type 0} where
  -- A stock with the name of its supplier, where it has one.
  abbrev with_name : Bool → Result ScmError Supplier → StockRow R → Result ScmError (StockRow R)
  with_name true supplier stock = ok stock
  with_name false (ok supplier) stock = ok (record stock { primary_supplier = supplier.name })
  with_name false (err e) stock = err e

  abbrev then_cons :
      Result ScmError (StockRow R)
      → Result ScmError (List (StockRow R))
      → Result ScmError (List (StockRow R))
  then_cons (ok stock) (ok stocks) = ok (stock ∷ stocks)
  then_cons (ok stock) (err e) = err e
  then_cons (err e) stocks = err e

  -- Each stock with the supplier that its own id stands for; the first that has none is the error.
  abbrev pub hydrated :
      (ℕ → Result ScmError Supplier) → List (StockRow R) → Result ScmError (List (StockRow R))
  hydrated supplier_of [] = ok []
  hydrated supplier_of (stock ∷ stocks) =
      then_cons
        (with_name (stock.primary_supplier_id == 0) (supplier_of stock.primary_supplier_id) stock)
        (hydrated supplier_of stocks)

module _ {W R : Type 0} (D : InventoryDeps W R) where
  -- A table of suppliers: reading one gives what the table has for its id.
  pub record Suppliers : Type 0 where
    pub supplier_of : ℕ → Result ScmError Supplier
    pub reads : (i : ℕ) (w : W) → (D.get_supplier_by_id i w).0 ≡ supplier_of i

  module _ (T : Suppliers) where
    -- The names that are kept are those of the table.
    abbrev AreNames : List (ℕ × String) → Type 0
    AreNames names =
        (i : ℕ) (name : String)
        → looked_up i names ≡ some name
        → (s : Supplier) × (T.supplier_of i ≡ ok s) × (s.name ≡ name)

    AreNames-cons :
        (id : ℕ) (s : Supplier) (names : List (ℕ × String))
        → T.supplier_of id ≡ ok s
        → AreNames names
        → AreNames ((id, s.name) ∷ names)
    AreNames-cons id s names is_s are i name h = elim (Bool-cases (id == i)) [
      | inl same ↦
          let one : id ≡ i = ground (arith, same) in
          let found : some s.name ≡ some name = rw same at h in
          (s, ap T.supplier_of (sym one) ∙ is_s, cc)
      | inr apart ↦ are i name (rw apart at h)
    ]

    cons_result :
        (a : StockRow R) (m : Action W ScmError (List (StockRow R))) (w : W)
        (r : Result ScmError (List (StockRow R)))
        → (m w).0 ≡ r
        → ((m >>= λ rest. pure (a ∷ rest)) w).0 ≡ then_cons (ok a) r
    cons_result a m w (ok rest) h = ap (λ p. p.0) (>>=-run m _ w rest h)
    cons_result a m w (err e) h = >>=-err m _ w e h

    module _ (stock : StockRow R) (stocks : List (StockRow R))
        (ih : (names : List (ℕ × String)) (w : W)
          → AreNames names
          → (hydrate_from D names stocks w).0 ≡ hydrated T.supplier_of stocks) where
      abbrev and_rest : Option String × List (ℕ × String) → Action W ScmError (List (StockRow R))
      and_rest found = hydrate_from D found.1 stocks >>= λ rest. pure (named D found.0 stock ∷ rest)

      read_name :
          (names : List (ℕ × String)) (id : ℕ) (w : W) (r : Result ScmError Supplier)
          → T.supplier_of id ≡ r
          → AreNames names
          → ((name_or_read D names id none >>= and_rest) w).0
            ≡ then_cons (with_name false r stock) (hydrated T.supplier_of stocks)
      read_name names id w (err e) is are =
          >>=-err (name_or_read D names id none) and_rest w e
            (>>=-err (D.get_supplier_by_id id) _ w e (T.reads id w ∙ is))
      read_name names id w (ok s) is are =
          let run =
            >>=-run (D.get_supplier_by_id id) (λ x. pure (some x.name, (id, x.name) ∷ names)) w s
              (T.reads id w ∙ is) in
          let v = (D.get_supplier_by_id id w).1 in
          let told = ap (λ p. p.0) run in
          ap (λ p. p.0)
            (>>=-run (name_or_read D names id none) and_rest w (some s.name, (id, s.name) ∷ names)
              told)
          ∙ cons_result _ (hydrate_from D ((id, s.name) ∷ names) stocks) _
              (hydrated T.supplier_of stocks)
              (ih ((id, s.name) ∷ names) _ (AreNames-cons id s names is are))

      known_or_read :
          (names : List (ℕ × String)) (id : ℕ) (w : W) (o : Option String)
          → looked_up id names ≡ o
          → AreNames names
          → ((name_or_read D names id o >>= and_rest) w).0
            ≡ then_cons (with_name false (T.supplier_of id) stock) (hydrated T.supplier_of stocks)
      known_or_read names id w none e are = read_name names id w (T.supplier_of id) refl are
      known_or_read names id w (some name) e are =
          let (s, is, one) = are id name e in
          ap (λ p. p.0) (>>=-run (pure (some name, names)) and_rest w (some name, names) refl)
          ∙ cons_result (record stock { primary_supplier = name }) (hydrate_from D names stocks) w
              (hydrated T.supplier_of stocks) (ih names w are)
          ∙ ap
              (λ n.
                then_cons (ok (record stock { primary_supplier = n }))
                  (hydrated T.supplier_of stocks))
              (sym one)
          ∙ ap (λ r. then_cons (with_name false r stock) (hydrated T.supplier_of stocks)) (sym is)

      named_or_not :
          (b : Bool) (names : List (ℕ × String)) (id : ℕ) (w : W)
          → AreNames names
          → ((name_for D names b id >>= and_rest) w).0
            ≡ then_cons (with_name b (T.supplier_of id) stock) (hydrated T.supplier_of stocks)
      named_or_not true names id w are =
          ap (λ p. p.0) (>>=-run (pure (none, names)) and_rest w (none, names) refl)
          ∙ cons_result stock (hydrate_from D names stocks) w (hydrated T.supplier_of stocks)
              (ih names w are)
      named_or_not false names id w are = known_or_read names id w (looked_up id names) refl are

    hydrate_from-hydrated :
        (names : List (ℕ × String)) (stocks : List (StockRow R)) (w : W)
        → AreNames names
        → (hydrate_from D names stocks w).0 ≡ hydrated T.supplier_of stocks
    unfolding hydrate_from
    hydrate_from-hydrated names [] w are = refl
    hydrate_from-hydrated names (stock ∷ stocks) w are =
        named_or_not stock stocks (λ ns v a. hydrate_from-hydrated ns stocks v a)
          (stock.primary_supplier_id == 0) names stock.primary_supplier_id w are

    -- Where reading a supplier always gives what a table has for its id: the loop that keeps the
    -- names it has read gives each stock the name that its own supplier's id stands for, none where
    -- the id is nil, and fails with the error of the first stock whose supplier cannot be read.
    pub hydrate_stock_suppliers-hydrated :
        (stocks : List (StockRow R)) (w : W)
        → (hydrate_stock_suppliers D stocks w).0 ≡ hydrated T.supplier_of stocks
    unfolding hydrate_stock_suppliers
    hydrate_stock_suppliers-hydrated stocks w = hydrate_from-hydrated [] stocks w (λ i name h. cc)
