-- ===== src/Mrp/Matrix/Ready.antt =====
-- mrp/internal/service/demand_service.go, `GetDemandSummary`: the quantity that is ready to build.
use native.Mathlib.Nat.{le-div_iff_mul-le}
use zeus_be.Prelude.{
  ℕ, suc, ◌*◌, ◌/◌, ◌^◌, ◌<◌, ◌≤◌, leb, ltb, ℤ, pos, mul64, mul64-eq, IsInt64, ◌*ℤ◌, ltb_ℤ, eqb_ℤ,
  true, List, [], ◌∷◌, length, All, if◌then◌else◌, ◌≡◌, refl, ap, ◌∙◌, arith,
}
use zeus_be.Mrp.Readiness.{BomExplosionResult, ReadinessMatrixRow}
use zeus_be.Mrp.Matrix.{div64, min_build, qty_ready}

-- A quantity at hand that is not negative, a positive requirement, and a product that fits an int.
abbrev pub IsCovered : ℕ → BomExplosionResult → Type 0
IsCovered n result =
    (a t : ℕ) × (result.available_qty ≡ pos a)
    × (result.total_required_qty ≡ pos (suc t))
    × (a * n < 2 ^ 63)

-- `q` units need no more of the part than is at hand, where `n` units need all that is required.
abbrev pub Allows : ℕ → ℕ → BomExplosionResult → Type 0
Allows n q result =
    (a t : ℕ) × (result.available_qty ≡ pos a)
    × (result.total_required_qty ≡ pos (suc t))
    × (q * suc t ≤ a * n)

product : (a n : ℕ) → a * n < 2 ^ 63 → mul64 (pos a) (pos n) ≡ pos (a * n)
unfolding ◌*ℤ◌
product a n h =
    let e : pos a *ℤ pos n ≡ pos (a * n) = ground arith in
    let small : IsInt64 (pos a *ℤ pos n) = rw e h in mul64-eq (pos a) (pos n) small ∙ e

-- What one part leaves of the units that the parts before it allow.
abbrev least_of : ℕ → ℕ → ℕ
least_of can least = if ltb can least then can else least

smaller :
    (can least t : ℕ)
    → (if eqb_ℤ (pos (suc t)) (pos 0)
        then pos least
        else (if ltb_ℤ (pos can) (pos least) then pos can else pos least))
      ≡ pos (least_of can least)
smaller can least t = ground arith

turn :
    (av req : ℤ) (a t n l : ℕ)
    → av ≡ pos a
    → req ≡ pos (suc t)
    → a * n < 2 ^ 63
    → (if eqb_ℤ req (pos 0)
        then pos l
        else (if ltb_ℤ (div64 (mul64 av (pos n)) req) (pos l)
            then div64 (mul64 av (pos n)) req
            else pos l))
      ≡ pos (least_of (a * n / suc t) l)
unfolding div64
turn av req a t n l e e' h = rw (e, e', product a n h) (smaller (a * n / suc t) l t)

least_of-le : (can least : ℕ) → (least_of can least ≤ can) × (least_of can least ≤ least)
least_of-le can least = ground arith

-- Units that are no more than the quotient need no more than the dividend.
fits : (q x t : ℕ) → q ≤ x / suc t → q * suc t ≤ x
fits q x t h = (le-div_iff_mul-le {k = suc t} {x = q} {y = x} (omega arith)).0 h

min_build_lem :
    (n l : ℕ) (results : List BomExplosionResult)
    → All (IsCovered n) results
    → (q : ℕ) × (min_build (pos n) (pos l) results ≡ pos q) × (q ≤ l) × All (Allows n q) results
unfolding min_build
min_build_lem n l [] h = (l, refl, omega arith, tt)
min_build_lem n l (result ∷ results) ((a, t, at_hand, required, small), h) =
    let can = a * n / suc t in
    let (below_can, below) = least_of-le can l in
    let (q, e, le, all) = min_build_lem n (least_of can l) results h in
    let step = turn result.available_qty result.total_required_qty a t n l at_hand required small in
    (
      q,
      ap (λ x. min_build (pos n) x results) step ∙ e,
      omega (arith, le, below),
      ((a, t, at_hand, required, fits q (a * n) t (omega (arith, le, below_can))), all),
    )

not_negative : (q : ℕ) → (if ltb_ℤ (pos q) (pos 0) then pos 0 else pos q) ≡ pos q
not_negative q = ground arith

ready :
    (n : ℕ) (results : List BomExplosionResult)
    → All (IsCovered n) results
    → (q : ℕ) × ((let least : ℤ = min_build (pos n) (pos n) results in
          if leb 1 (length results) then (if ltb_ℤ least (pos 0) then pos 0 else least) else pos n)
        ≡ pos q)
      × (q ≤ n)
      × All (Allows n q) results
ready n [] h = (n, refl, omega arith, tt)
ready n (result ∷ results) h =
    let (q, e, le, all) = min_build_lem n n (result ∷ results) h in
    let one : leb 1 (length (result ∷ results)) ≡ true = ground arith in
    (q, rw (one, e) (not_negative q), le, all)

-- Where every part has a quantity at hand that is not negative, a positive requirement, and a
-- product of the quantity at hand and the order's units that fits an int: the units of an order that
-- are said to be ready are between none and all of them, and no part needs more for them than is
-- at hand.
pub qty_ready-Allows :
    (row : ReadinessMatrixRow) (n : ℕ)
    → row.quantity ≡ pos n
    → All (IsCovered n) row.deficit_breakdown
    → (q : ℕ) × (qty_ready row ≡ pos q) × (q ≤ n) × All (Allows n q) row.deficit_breakdown
unfolding qty_ready
qty_ready-Allows row n e h = rw e (ready n row.deficit_breakdown h)
