-- ===== src/Mrp/Matrix/Pages.antt =====
-- mrp/internal/service/readiness_service.go, `paginateReadinessRows`: the pages are the rows in order.
use zeus_be.Prelude.{
  ℕ, zero, suc, ◌+◌, ◌-◌, ◌*◌, ◌^◌, ◌<◌, ◌≤◌, leb, ltb, pos, add64, sub64, mul64, wrap64, ◌+ℤ◌,
  ◌-ℤ◌, ◌*ℤ◌, ltb_ℤ, leb_ℤ, Bool, true, false, ◌&&◌, Option, none, some, List, [], ◌∷◌, ◌++◌,
  length, take, drop, length-drop, IsInt64, mul64-eq, if◌then◌else◌, ◌≡◌, refl, sym, ap, ◌∙◌, arith,
  Bool-cases, inl, inr,
}
use zeus_be.Mrp.Readiness.{ReadinessMatrixRow}
use zeus_be.Mrp.Matrix.{paginate_readiness_rows, page_from, slice_rows}

-- Pages one after the other; none where the code panics at one of them.
abbrev joined :
    Option (List ReadinessMatrixRow)
    → Option (List ReadinessMatrixRow)
    → Option (List ReadinessMatrixRow)
joined none page = none
joined (some rows) none = none
joined (some rows) (some page) = some (rows ++ page)

-- The first `n` pages of `k` rows, joined.
abbrev pub pages : List ReadinessMatrixRow → ℕ → ℕ → Option (List ReadinessMatrixRow)
pages rows k zero = some []
pages rows k (suc n) = joined (pages rows k n) (paginate_readiness_rows rows (pos (suc n)) (pos k))

no_more : (n : ℕ) → suc n ≤ 0 → n < n
no_more n h = omega (arith, h)

take-all : (n : ℕ) (rows : List ReadinessMatrixRow) → length rows ≤ n → take n rows ≡ rows
take-all zero [] h = refl
take-all zero (row ∷ rows) h = ground (arith, no_more (length rows) h)
take-all (suc n) [] h = refl
take-all (suc n) (row ∷ rows) h = ap (◌∷◌ row) (take-all n rows (omega (arith, h)))

drop-all : (n : ℕ) (rows : List ReadinessMatrixRow) → length rows ≤ n → drop n rows ≡ []
drop-all zero [] h = refl
drop-all zero (row ∷ rows) h = ground (arith, no_more (length rows) h)
drop-all (suc n) [] h = refl
drop-all (suc n) (row ∷ rows) h = drop-all n rows (omega (arith, h))

take-nil : (k : ℕ) → take {A = ReadinessMatrixRow} k [] ≡ []
take-nil zero = refl
take-nil (suc k) = refl

take-add :
    (n k : ℕ) (rows : List ReadinessMatrixRow)
    → take (n + k) rows ≡ take n rows ++ take k (drop n rows)
take-add zero k rows = let e : 0 + k ≡ k = omega arith in ap (λ m. take m rows) e
take-add (suc n) k [] =
    let e : suc n + k ≡ suc (n + k) = omega arith in
    ap (λ m. take {A = ReadinessMatrixRow} m []) e ∙ sym (take-nil k)
take-add (suc n) k (row ∷ rows) =
    let e : suc n + k ≡ suc (n + k) = omega arith in
    ap (λ m. take m (row ∷ rows)) e ∙ ap (◌∷◌ row) (take-add n k rows)

before : (n : ℕ) → n < 2 ^ 63 - 1 → sub64 (pos (suc n)) (pos 1) ≡ pos n
unfolding sub64 wrap64 ◌-ℤ◌
before n h = ground arith

times : (n k : ℕ) → n * k < 2 ^ 63 → mul64 (pos n) (pos k) ≡ pos (n * k)
unfolding ◌*ℤ◌
times n k h =
    let e : pos n *ℤ pos k ≡ pos (n * k) = ground arith in
    let small : IsInt64 (pos n *ℤ pos k) = rw e h in mul64-eq (pos n) (pos k) small ∙ e

ends : (a k : ℕ) → a + k < 2 ^ 63 → add64 (pos a) (pos k) ≡ pos (a + k)
unfolding add64 wrap64 ◌+ℤ◌
ends a k h = ground arith

slice-rows :
    (rows : List ReadinessMatrixRow) (a b : ℕ)
    → a ≤ b
    → b ≤ length rows
    → slice_rows rows (pos a) (pos b) ≡ some (take (b - a) (drop a rows))
unfolding slice_rows
slice-rows rows a b h k =
    let both : leb a b && leb b (length rows) ≡ true = ground (arith, h, k) in rw both refl

-- Cut off at the last row, a page has all that is left.
rest-rows :
    (rows : List ReadinessMatrixRow) (a k : ℕ)
    → length rows ≤ a + k
    → take (length rows - a) (drop a rows) ≡ take k (drop a rows)
rest-rows rows a k h =
    take-all (length rows - a) (drop a rows) (omega (arith, length-drop a rows))
    ∙ sym (take-all k (drop a rows) (omega (arith, length-drop a rows, h)))

inside_page :
    (rows : List ReadinessMatrixRow) (a k : ℕ) (b : Bool)
    → a ≤ length rows
    → ltb (length rows) (a + k) ≡ b
    → slice_rows rows (pos a) (if b then pos (length rows) else pos (a + k))
      ≡ some (take k (drop a rows))
inside_page rows a k true h e =
    let le : length rows ≤ a + k = ground (arith, e) in
    slice-rows rows a (length rows) h (omega arith) ∙ ap some (rest-rows rows a k le)
inside_page rows a k false h e =
    let le : a + k ≤ length rows = ground (arith, e) in
    let size : a + k - a ≡ k = omega arith in
    slice-rows rows a (a + k) (omega arith) le ∙ ap (λ m. some (take m (drop a rows))) size

page_from-rows :
    (rows : List ReadinessMatrixRow) (a k : ℕ)
    → a + k < 2 ^ 63
    → page_from rows (pos a) (pos k) ≡ some (take k (drop a rows))
unfolding page_from
page_from-rows rows a k h = elim (Bool-cases (leb_ℤ (pos (length rows)) (pos a))) [
  | inl past ↦
      let le : length rows ≤ a = ground (arith, past) in
      rw (past, drop-all a rows le) (ap some (sym (take-nil k)))
  | inr inside ↦
      let le : a ≤ length rows = ground (arith, inside) in
      rw (inside, ends a k h)
        (inside_page rows a k (ltb_ℤ (pos (length rows)) (pos (a + k))) le (ground arith))
]

paginate-rows :
    (rows : List ReadinessMatrixRow) (n k : ℕ)
    → n < 2 ^ 63 - 1
    → n * k + k < 2 ^ 63
    → paginate_readiness_rows rows (pos (suc n)) (pos k) ≡ some (take k (drop (n * k) rows))
unfolding paginate_readiness_rows
paginate-rows [] n k h h' = rw (drop-all (n * k) [] (omega arith)) (ap some (sym (take-nil k)))
paginate-rows (row ∷ rows) n k h h' =
    rw (before n h, times n k (omega (arith, h'))) (page_from-rows (row ∷ rows) (n * k) k h')

-- Where neither the page number nor the last row's index overflows, the first n pages of k rows,
-- joined, are the first n times k rows, in order: no row is left out or shown twice, and no page
-- panics, also past the last row.
pub pages-take :
    (rows : List ReadinessMatrixRow) (n k : ℕ)
    → n < 2 ^ 63
    → n * k < 2 ^ 63
    → pages rows k n ≡ some (take (n * k) rows)
pages-take rows zero k h h' =
    let e : 0 * k ≡ 0 = omega arith in sym (ap (λ m. some (take m rows)) e)
pages-take rows (suc n) k h h' =
    let e : suc n * k ≡ n * k + k = omega arith in
    let fits : n * k + k < 2 ^ 63 = rw e at h' in
    rw
      (
        pages-take rows n k (omega (arith, h)) (omega (arith, fits)),
        paginate-rows rows n k (omega (arith, h)) fits,
        e,
      )
      (ap some (sym (take-add (n * k) k rows)))
