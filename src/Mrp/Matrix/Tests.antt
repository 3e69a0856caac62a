-- ===== src/Mrp/Matrix/Tests.antt =====
-- An order of four units of two parts, and the theorems at it.
use zeus_be.Prelude.{
  some, ℕ, ◌*◌, ◌≤◌, ℤ, pos, Bool, true, false, [], ◌∷◌, All, take, ◌≡◌, refl, arith, mul64, wrap64,
  ◌*ℤ◌,
}
use zeus_be.Mrp.Readiness.{BomExplosionResult, ReadinessMatrixRow, shortage}
use zeus_be.Mrp.Matrix.{qty_ready, min_build, div64}
use zeus_be.Mrp.Matrix.Pages.{pages, pages-take}
use zeus_be.Mrp.Matrix.Ready.{IsCovered, Allows, qty_ready-Allows}

abbrev need : ℕ → ℤ → ℤ → Bool → BomExplosionResult
need part required at_hand short = record {
  part_id = part;
  component_sku = "";
  total_required_qty = required;
  available_qty = at_hand;
  allocated_qty = pos 0;
  is_shortage = short;
}

abbrev row : ReadinessMatrixRow
row = record {
  order_id = 7;
  target_build = "PC";
  quantity = pos 4;
  status = shortage;
  deficit_breakdown = need 1 (pos 8) (pos 5) true ∷ need 2 (pos 4) (pos 9) false ∷ [];
}

-- Two pages of two rows each, and one past the end.
pages-take_example : pages (row ∷ row ∷ row ∷ []) 2 3 ≡ some (take (3 * 2) (row ∷ row ∷ row ∷ []))
pages-take_example = pages-take (row ∷ row ∷ row ∷ []) 3 2 (omega arith) (omega arith)

row-IsCovered : All (IsCovered 4) row.deficit_breakdown
row-IsCovered = ((5, 7, refl, refl, omega arith), ((9, 3, refl, refl, omega arith), tt))

qty_ready-Allows_example :
    (q : ℕ) × (qty_ready row ≡ pos q) × (q ≤ 4) × All (Allows 4 q) row.deficit_breakdown
qty_ready-Allows_example = qty_ready-Allows row 4 refl row-IsCovered

-- Five of eight parts make two of four units.
two_ready : qty_ready row ≡ pos 2
unfolding qty_ready min_build div64 mul64 wrap64 ◌*ℤ◌
two_ready = refl
