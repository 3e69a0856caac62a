-- ===== src/Scm/Vendors/Optimal.antt =====
-- scm/internal/service/vendor_service.go, `GetOptimalSupplier`: the choice among the mappings.
use zeus_be.Prelude.{
  ℕ, String, true, false, Bool-cases, inl, inr, Option, none, some, List, [], ◌∷◌, All, ok, attempt,
  or_error, or_error-ok, >>=-run, >>=-ok, ok-injective, Floats, ◌≡◌, ◌⊎◌, refl, sym, ap, ◌∙◌, subst,
}
use zeus_be.Scm.Errors.{no_optimal_supplier}
use zeus_be.Scm.Vendors.{
  VendorDeps, SupplierRow, MappingRow, Best, score, better, best_of, chosen, negative_one, nonempty,
  mappings_of, get_optimal_supplier,
}

module _ {W : Type 0} (F : Floats) (D : VendorDeps W F.Float) where
  open F use {Float}

  -- `>` on numbers, infinities and NaN: no value is greater than itself, and the order is transitive.
  pub record Ordered : Type 0 where
    pub irreflexive : (x : Float) → D.gt_f x x ≡ false
    pub transitive : (x y z : Float) → D.gt_f x y ≡ true → D.gt_f y z ≡ true → D.gt_f x z ≡ true

  -- A table of suppliers: reading one gives what the table has for its id, or fails where it has
  -- none.
  pub record Table : Type 0 where
    pub supplier_of : ℕ → Option (SupplierRow Float)
    pub reads : (i : ℕ) (w : W) → (attempt (D.get_supplier_by_id i) w).0 ≡ ok (supplier_of i)

  abbrev pub Among : MappingRow Float → List (MappingRow Float) → Type 0
  Among m [] = ⊥
  Among m (n ∷ ns) = (n ≡ m) ⊎ Among m ns

  module _ (O : Ordered) (T : Table) where
    -- The mapping, if its supplier can be read, has no score above.
    abbrev pub NotAbove : Float → MappingRow Float → Type 0
    NotAbove best_score m =
        (s : SupplierRow Float)
        → T.supplier_of m.supplier_id ≡ some s
        → D.gt_f (score F D s m) best_score ≡ false

    abbrev picked : Best F D → List (MappingRow Float) → Best F D
    picked best [] = best
    picked best (m ∷ ms) = picked (better F D best m (T.supplier_of m.supplier_id)) ms

    best_of-picked :
        (best : Best F D) (ms : List (MappingRow Float)) (w : W)
        → (best_of F D best ms w).0 ≡ ok (picked best ms)
    unfolding best_of
    best_of-picked best [] w = refl
    best_of-picked best (m ∷ ms) w =
        let read = attempt (D.get_supplier_by_id m.supplier_id) in
        ap (λ p. p.0)
          (>>=-run read (λ s. best_of F D (better F D best m s) ms) w (T.supplier_of m.supplier_id)
            (T.reads m.supplier_id w))
        ∙ best_of-picked (better F D best m (T.supplier_of m.supplier_id)) ms (read w).1

    -- A step does not lower the score: what was not above it stays so.
    better-above :
        (best : Best F D) (m : MappingRow Float) (o : Option (SupplierRow Float)) (x : Float)
        → D.gt_f x best.1 ≡ false
        → D.gt_f x (better F D best m o).1 ≡ false
    better-above best m none x h = h
    better-above best m (some s) x h = elim (Bool-cases (D.gt_f (score F D s m) best.1)) [
      | inl above ↦ elim (Bool-cases (D.gt_f x (score F D s m))) [
        | inl higher ↦ let clash = O.transitive x (score F D s m) best.1 higher above in cc
        | inr lower ↦ rw above lower
      ]
      | inr below ↦ rw below h
    ]

    better-NotAbove :
        (best : Best F D) (m : MappingRow Float)
        → NotAbove (better F D best m (T.supplier_of m.supplier_id)).1 m
    better-NotAbove best m s h =
        subst (λ o. D.gt_f (score F D s m) (better F D best m o).1 ≡ false) (sym h)
          (elim (Bool-cases (D.gt_f (score F D s m) best.1)) [
            | inl above ↦ rw above (O.irreflexive (score F D s m))
            | inr below ↦ rw (below, below)
          ])

    picked-above :
        (best : Best F D) (ms : List (MappingRow Float)) (x : Float)
        → D.gt_f x best.1 ≡ false
        → D.gt_f x (picked best ms).1 ≡ false
    picked-above best [] x h = h
    picked-above best (m ∷ ms) x h =
        picked-above (better F D best m (T.supplier_of m.supplier_id)) ms x
          (better-above best m (T.supplier_of m.supplier_id) x h)

    picked-NotAbove :
        (best : Best F D) (ms : List (MappingRow Float)) → All (NotAbove (picked best ms).1) ms
    picked-NotAbove best [] = tt
    picked-NotAbove best (m ∷ ms) =
        let next = better F D best m (T.supplier_of m.supplier_id) in
        (
          λ s h. picked-above next ms (score F D s m) (better-NotAbove best m s h),
          picked-NotAbove next ms,
        )

    -- The choice is a mapping with its supplier, and has the score.
    abbrev IsChoice :
        List (MappingRow Float) → Best F D → SupplierRow Float × MappingRow Float → Type 0
    IsChoice ms best c =
        Among c.1 ms × (T.supplier_of c.1.supplier_id ≡ some c.0) × (best.1 ≡ score F D c.0 c.1)

    better-IsChoice :
        (best : Best F D) (m : MappingRow Float) (ms : List (MappingRow Float))
        (o : Option (SupplierRow Float)) (c : SupplierRow Float × MappingRow Float)
        → T.supplier_of m.supplier_id ≡ o
        → (better F D best m o).0 ≡ some c
        → ((best.0 ≡ some c) × ((better F D best m o).1 ≡ best.1))
          ⊎ IsChoice (m ∷ ms) (better F D best m o) c
    better-IsChoice best m ms none c e h = inl (h, refl)
    better-IsChoice best m ms (some s) c e h = elim (Bool-cases (D.gt_f (score F D s m) best.1)) [
      | inl above ↦
          let one : some (s, m) ≡ some c = rw above at h in
          let same : (s, m) ≡ c = cc in
          inr (
            subst (λ d. IsChoice (m ∷ ms) (better F D best m (some s)) d) same
              (inl refl, e, (rw above refl)))
      | inr below ↦ inl ((rw below at h), (rw below refl))
    ]

    picked-IsChoice :
        (best : Best F D) (ms : List (MappingRow Float)) (c : SupplierRow Float × MappingRow Float)
        → (picked best ms).0 ≡ some c
        → ((best.0 ≡ some c) × ((picked best ms).1 ≡ best.1)) ⊎ IsChoice ms (picked best ms) c
    picked-IsChoice best [] c h = inl (h, refl)
    picked-IsChoice best (m ∷ ms) c h =
        let o = T.supplier_of m.supplier_id in
        let next = better F D best m o in
        elim (picked-IsChoice next ms c h) [
          | inl (kept, same) ↦ elim (better-IsChoice best m ms o c refl kept) [
            | inl (old, score_same) ↦ inl (old, same ∙ score_same)
            | inr (among, own, value) ↦ inr (among, own, same ∙ value)
          ]
          | inr (among, own, value) ↦ inr (inr among, own, value)
        ]

    chosen-ok :
        (best : Best F D) (w : W) (c : SupplierRow Float × MappingRow Float)
        → (chosen F D best w).0 ≡ ok c
        → best.0 ≡ some c
    chosen-ok (none, x) w c h = cc
    chosen-ok (some b, x) w c h = ap some (ok-injective h)

    nonempty-some : (ms ns : List (MappingRow Float)) → nonempty F D ms ≡ some ns → ms ≡ ns
    nonempty-some [] ns h = cc
    nonempty-some (m ∷ ms) ns h = cc

    -- Where the order of the scores is one, and reading a supplier always gives what a table has for
    -- its id: the supplier and the mapping that are found for a SKU are one of the mappings that
    -- were read for it and the supplier of its id, and no mapping whose supplier can be read has a
    -- score above theirs.
    pub get_optimal_supplier-best :
        (sku : String) (w : W) (c : SupplierRow Float × MappingRow Float)
        → (get_optimal_supplier F D sku w).0 ≡ ok c
        → (ms : List (MappingRow Float)) × ((D.find_sku_mappings_by_sku sku w).0 ≡ ok ms)
          × Among c.1 ms
          × (T.supplier_of c.1.supplier_id ≡ some c.0)
          × All (NotAbove (score F D c.0 c.1)) ms
    unfolding get_optimal_supplier
    get_optimal_supplier-best sku w c h =
        let start : Best F D = (none, negative_one F D) in
        let (ms, found, h₁) = >>=-ok (or_error (mappings_of F D sku) no_optimal_supplier) _ w c h in
        let (listed, read, h₂) =
          >>=-ok (D.find_sku_mappings_by_sku sku) _ w (some ms)
            (or_error-ok (mappings_of F D sku) no_optimal_supplier w ms found) in
        let same = nonempty-some listed ms (ok-injective h₂) in
        let (best, told, h₃) = >>=-ok (best_of F D start ms) _ _ c h₁ in
        let is_picked : picked start ms ≡ best =
          ok-injective (sym (best_of-picked start ms _) ∙ told) in
        let choice = ap (λ b. b.0) is_picked ∙ chosen-ok best _ c h₃ in
        elim (picked-IsChoice start ms c choice) [
          | inl (old, _) ↦ let clash : none ≡ some c = old in cc
          | inr (among, own, value) ↦ (
            ms,
            read ∙ ap ok same,
            among,
            own,
            subst (λ x. All (NotAbove x) ms) value (picked-NotAbove start ms),
          )
        ]
