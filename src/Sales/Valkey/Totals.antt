-- ===== src/Sales/Valkey/Totals.antt =====
-- sales/internal/repository/valkey/reservations.go: the transactions of a reservation and of its
-- release, and what they add up to.
use mathlib.Core.List.{Permᴰ}
use zeus_be.Prelude.{
  ℕ, ℤ, pos, ◌+ℤ◌, ◌-ℤ◌, int_laws, IsInt64, String, str_eq, eq_iff, decimal, atoi, atoi-decimal,
  Bool, true, false, Bool-cases, inl, inr, none, some, List, [], ◌∷◌, All, if◌then◌else◌, ◌≡◌, refl,
  ap, ◌∙◌,
}
use zeus_be.Sales.Fulfillment.{ReservationItem}
use zeus_be.Sales.Valkey.{
  Command, decr_by, incr_by, hset, Redis, field_of, atp_key, reservation_key, then_delete,
}
use zeus_be.Sales.Valkey.Store.{number_after, put, fields_after, after_all, reservation-ne-atp}

abbrev pub value : String → ℤ
value text = elim (atoi text) [ none ↦ pos 0 | some n ↦ n ]

pub sub_if :
    (b : Bool) (v n o : ℤ) → (if b then v -ℤ n else v) -ℤ o ≡ v -ℤ (if b then n +ℤ o else o)
sub_if true v n o = omega int_laws
sub_if false v n o = refl

pub add_if :
    (b : Bool) (v n o : ℤ) → (if b then v +ℤ n else v) +ℤ o ≡ v +ℤ (if b then n +ℤ o else o)
add_if true v n o = omega int_laws
add_if false v n o = refl

pub add_last :
    (b : Bool) (n : ℤ) → (if b then n +ℤ pos 0 else pos 0) ≡ pos 0 +ℤ (if b then n else pos 0)
add_last true n = omega int_laws
add_last false n = omega int_laws

pub add_assoc : (a b c : ℤ) → a +ℤ (b +ℤ c) ≡ a +ℤ b +ℤ c
add_assoc a b c = omega int_laws

pub add_past :
    (b : Bool) (n x y r : ℤ)
    → y ≡ x +ℤ r
    → (if b then n +ℤ y else y) ≡ (if b then n +ℤ x else x) +ℤ r
add_past true n x y r h = ap (λ c. n +ℤ c) h ∙ add_assoc n x r
add_past false n x y r h = h

pub add_first :
    (b : Bool) (n x o : ℤ) → x +ℤ (if b then n else pos 0) +ℤ o ≡ x +ℤ (if b then n +ℤ o else o)
add_first true n x o = omega int_laws
add_first false n x o = omega int_laws

pub add_swap :
    (a b : Bool) (n m x : ℤ)
    → (if a then n +ℤ (if b then m +ℤ x else x) else (if b then m +ℤ x else x))
      ≡ (if b then m +ℤ (if a then n +ℤ x else x) else (if a then n +ℤ x else x))
add_swap true true n m x = omega int_laws
add_swap true false n m x = refl
add_swap false true n m x = refl
add_swap false false n m x = refl

module _ {W : Type 0} (D : Redis W) where
  abbrev pub key_of : String → String
  key_of sku = atp_key D (field_of D sku)

  -- What the items ask for at a key.
  abbrev pub owed : String → List ReservationItem → ℤ
  owed key [] = pos 0
  owed key (item ∷ items) =
      if str_eq (key_of item.sku) key then item.quantity +ℤ owed key items else owed key items

  -- The items are of different SKUs, as Redis keeps them.
  abbrev pub AreDistinct : List ReservationItem → Type 0
  AreDistinct [] = Unit
  AreDistinct (item ∷ items) =
      All (λ other. str_eq (field_of D item.sku) (field_of D other.sku) ≡ false) items
      × AreDistinct items

  abbrev pub commands_of : ℕ → List ReservationItem → List Command
  commands_of i [] = []
  commands_of i (item ∷ items) =
      decr_by (key_of item.sku) item.quantity
      ∷ hset (reservation_key D i) (field_of D item.sku) (decimal item.quantity)
      ∷ commands_of i items

  abbrev pub puts : List ReservationItem → List (String × String) → List (String × String)
  puts [] es = es
  puts (item ∷ items) es = puts items (put (field_of D item.sku) (decimal item.quantity) es)

  abbrev pub returns_of : List (String × String) → List Command
  returns_of [] = []
  returns_of ((f, text) ∷ es) = incr_by (atp_key D f) (value text) ∷ returns_of es

  -- What the fields of a reservation give back at a key.
  abbrev pub total : String → List (String × String) → ℤ
  total key [] = pos 0
  total key ((f, text) ∷ es) =
      if str_eq (atp_key D f) key then value text +ℤ total key es else total key es

  abbrev pub Absent : String → List (String × String) → Type 0
  Absent f es = All (λ e. str_eq e.0 f ≡ false) es

  pub numbers-commands :
      (i : ℕ) (key : String) (items : List ReservationItem) (v : ℤ)
      → after_all (number_after key) (commands_of i items) v ≡ v -ℤ owed key items
  numbers-commands i key [] v = omega int_laws
  numbers-commands i key (item ∷ items) v =
      numbers-commands i key items _
      ∙ sub_if (str_eq (key_of item.sku) key) v item.quantity (owed key items)

  pub fields-commands :
      (i : ℕ) (items : List ReservationItem) (es : List (String × String))
      → after_all (fields_after (reservation_key D i)) (commands_of i items) es ≡ puts items es
  fields-commands i [] es = refl
  fields-commands i (item ∷ items) es =
      let own = (eq_iff (reservation_key D i) (reservation_key D i)).1 refl in
      let putting = λ (b : Bool).
        after_all (fields_after (reservation_key D i)) (commands_of i items)
          (if b then put (field_of D item.sku) (decimal item.quantity) es else es) in
      ap putting own ∙ fields-commands i items _

  pub total-put :
      (key f text : String) (es : List (String × String))
      → Absent f es
      → total key (put f text es)
        ≡ total key es +ℤ (if str_eq (atp_key D f) key then value text else pos 0)
  total-put key f text [] h = add_last (str_eq (atp_key D f) key) (value text)
  total-put key f text ((g, t) ∷ es) (h, hs) = rw h (
      add_past (str_eq (atp_key D g) key) (value t) (total key es) _ _ (total-put key f text es hs))

  pub put-Absent :
      (f g text : String) (es : List (String × String))
      → str_eq g f ≡ false
      → Absent f es
      → Absent f (put g text es)
  put-Absent f g text [] h hs = (h, tt)
  put-Absent f g text ((e, t) ∷ es) h (k, ks) = elim (Bool-cases (str_eq e g)) [
    | inl same ↦ rw same (h, ks)
    | inr other ↦ rw other (k, put-Absent f g text es h ks)
  ]

  pub put-Absent_all :
      (g text : String) (items : List ReservationItem) (es : List (String × String))
      → All (λ other. str_eq g (field_of D other.sku) ≡ false) items
      → All (λ item. Absent (field_of D item.sku) es) items
      → All (λ item. Absent (field_of D item.sku) (put g text es)) items
  put-Absent_all g text [] es d a = tt
  put-Absent_all g text (item ∷ items) es (d, ds) (a, as') =
      (put-Absent (field_of D item.sku) g text es d a, put-Absent_all g text items es ds as')

  pub value-decimal : (n : ℤ) → IsInt64 n → value (decimal n) ≡ n
  value-decimal n h = ap (λ o. elim o [ none ↦ pos 0 | some m ↦ m ]) (atoi-decimal n h)

  pub total-puts :
      (key : String) (items : List ReservationItem) (es : List (String × String))
      → AreDistinct items
      → All (λ item. IsInt64 item.quantity) items
      → All (λ item. Absent (field_of D item.sku) es) items
      → total key (puts items es) ≡ total key es +ℤ owed key items
  total-puts key [] es d h a = omega int_laws
  total-puts key (item ∷ items) es (d, ds) (h, hs) (a, as') =
      let f = field_of D item.sku in
      let q = item.quantity in
      let b = str_eq (atp_key D f) key in
      total-puts key items (put f (decimal q) es) ds hs
        (put-Absent_all f (decimal q) items es d as')
      ∙ ap (λ x. x +ℤ owed key items) (total-put key f (decimal q) es a)
      ∙ ap (λ n. total key es +ℤ (if b then n else pos 0) +ℤ owed key items) (value-decimal q h)
      ∙ add_first b q (total key es) (owed key items)

  pub total-perm :
      (key : String) (es fs : List (String × String)) → Permᴰ es fs → total key es ≡ total key fs
  total-perm key _ _ (Permᴰ.nil) = refl
  total-perm key _ _ (Permᴰ.cons {a} {b} {l₁ = xs} {l₂ = ys} e p) =
      ap (λ c. total key (c ∷ xs)) e
      ∙ ap (λ x. if str_eq (atp_key D b.0) key then value b.1 +ℤ x else x) (total-perm key xs ys p)
  total-perm key _ _ (Permᴰ.swap {a} {b} {a'} {b'} {l = xs} e k) =
      ap (λ c. total key (c ∷ b ∷ xs)) e
      ∙ ap (λ c. total key (b' ∷ c ∷ xs)) k
      ∙ add_swap (str_eq (atp_key D b'.0) key) (str_eq (atp_key D a'.0) key) (value b'.1)
          (value a'.1) (total key xs)
  total-perm key _ _ (Permᴰ.trans {l₁ = xs} {l₂ = ys} {l₃ = zs} p q) =
      total-perm key xs ys p ∙ total-perm key ys zs q

  pub numbers-returns :
      (i : ℕ) (f : String) (es : List (String × String)) (v : ℤ)
      → after_all
          (number_after (atp_key D f))
          (then_delete D (reservation_key D i) (returns_of es))
          v
        ≡ v +ℤ total (atp_key D f) es
  numbers-returns i f [] v =
      ap (λ b. if b then pos 0 else v) (reservation-ne-atp _ _) ∙ omega int_laws
  numbers-returns i f ((g, t) ∷ es) v =
      numbers-returns i f es _ ∙ add_if (str_eq (atp_key D g) (atp_key D f)) v (value t) _

  pub fields-returns :
      (i : ℕ) (es xs : List (String × String))
      → after_all
          (fields_after (reservation_key D i))
          (then_delete D (reservation_key D i) (returns_of es))
          xs
        ≡ []
  fields-returns i [] xs =
      ap (λ b. if b then [] else xs) ((eq_iff (reservation_key D i) (reservation_key D i)).1 refl)
  fields-returns i ((g, t) ∷ es) xs = fields-returns i es xs
