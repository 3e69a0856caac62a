-- ===== src/Prelude/Text/Numerals.antt =====
-- `strconv.Atoi` reads back what `fmt.Sprintf("%d", n)` writes.
use Prim.Native.Nat.{ℕ, zero, suc, ◌+◌, ◌-◌, ◌*◌, ◌/◌, ◌%◌, ◌^◌, ◌<◌}
use Prim.Native.Char.{Char, char, code}
use Prim.Native.String.{String, ◌++◌, [], ◌∷◌}
use mathlib.Core.Logic.{inl, inr}
use mathlib.Core.Option.{some}
use mathlib.Core.Path.{◌≡◌, refl, sym, ap, ◌∙◌}
use native.Mathlib.Omega.{arith}
use text.Mathlib.TextLemmas.{nil-append, cons-append}
use zeus_be.Prelude.Tests.{ltb, Bool-cases}
use zeus_be.Prelude.Int.{ℤ, pos, negsuc}
use zeus_be.Prelude.Int64.{IsInt64}
use zeus_be.Prelude.Text.{digit, decimal, decimal_fuel, digits_value, unsigned, atoi}

digit-char : (d : ℕ) → d < 10 → (c : Char) × (digit d ≡ c ∷ []) × (code c ≡ 48 + d)
digit-char zero h = (char 48 tt, refl, refl)
digit-char (suc zero) h = (char 49 tt, refl, refl)
digit-char (suc (suc zero)) h = (char 50 tt, refl, refl)
digit-char (suc (suc (suc zero))) h = (char 51 tt, refl, refl)
digit-char (suc (suc (suc (suc zero)))) h = (char 52 tt, refl, refl)
digit-char (suc (suc (suc (suc (suc zero))))) h = (char 53 tt, refl, refl)
digit-char (suc (suc (suc (suc (suc (suc zero)))))) h = (char 54 tt, refl, refl)
digit-char (suc (suc (suc (suc (suc (suc (suc zero))))))) h = (char 55 tt, refl, refl)
digit-char (suc (suc (suc (suc (suc (suc (suc (suc zero)))))))) h = (char 56 tt, refl, refl)
digit-char (suc (suc (suc (suc (suc (suc (suc (suc (suc zero))))))))) h = (char 57 tt, refl, refl)
digit-char (suc (suc (suc (suc (suc (suc (suc (suc (suc (suc d)))))))))) h = absurd (omega arith)

digits_value-char :
    (n d : ℕ) (c : Char) → d < 10 → code c ≡ 48 + d → digits_value n (c ∷ []) ≡ some (n * 10 + d)
unfolding digits_value
digits_value-char n d c h e = ground arith

digits_value-digit : (n d : ℕ) → d < 10 → digits_value n (digit d) ≡ some (n * 10 + d)
digits_value-digit n d h =
    let (c, e, k) = digit-char d h in ap (digits_value n) e ∙ digits_value-char n d c h k

unsigned-digit : (d : ℕ) → d < 10 → unsigned (digit d) ≡ some d
unfolding unsigned
unsigned-digit d h =
    let (c, e, k) = digit-char d h in
    ap unsigned e ∙ digits_value-char 0 d c h k ∙ ap some (omega arith)

-- A numeral is read from the left.
digits_value-append :
    (n m : ℕ) (s t : String)
    → digits_value n s ≡ some m
    → digits_value n (s ++ t) ≡ digits_value m t
unfolding digits_value
digits_value-append n m [] t h =
    let same : n ≡ m = cc in ap (digits_value n) (nil-append t) ∙ ap (λ k. digits_value k t) same
digits_value-append n m (c ∷ s) t h =
    rw cons-append (ground (arith, digits_value-append (n * 10 + (code c - 48)) m s t))

unsigned-append :
    (m : ℕ) (s t : String) → unsigned s ≡ some m → unsigned (s ++ t) ≡ digits_value m t
unfolding unsigned
unsigned-append m [] t h = cc
unsigned-append m (c ∷ s) t h =
    ap unsigned (cons-append c s t)
    ∙ ap (digits_value 0) (sym (cons-append c s t))
    ∙ digits_value-append 0 m (c ∷ s) t h

unsigned-decimal : (f n : ℕ) → n < f → unsigned (decimal_fuel f n) ≡ some n
unfolding decimal_fuel
unsigned-decimal zero n h = absurd (omega arith)
unsigned-decimal (suc f) n h = elim (Bool-cases (ltb n 10)) [
  | inl small ↦ rw small (unsigned-digit n (ground arith))
  | inr large ↦ rw large (
      unsigned-append (n / 10) (decimal_fuel f (n / 10)) (digit (n % 10))
        (unsigned-decimal f (n / 10) (ground arith))
      ∙ digits_value-digit (n / 10) (n % 10) (omega arith)
      ∙ ap some (omega arith))
]

-- A text that is read as digits has no sign.
atoi-unsigned : (s : String) (n : ℕ) → unsigned s ≡ some n → n < 2 ^ 63 → atoi s ≡ some (pos n)
unfolding atoi unsigned digits_value
atoi-unsigned [] n h b = cc
atoi-unsigned (c ∷ s) n h b = ground arith

atoi-minus :
    (s : String) (n : ℕ)
    → unsigned s ≡ some (n + 1)
    → n < 2 ^ 63
    → atoi ("-" ++ s) ≡ some (negsuc n)
unfolding atoi
atoi-minus s n h b =
    ap atoi (cons-append (char 45 tt) [] s ∙ ap (◌∷◌ (char 45 tt)) (nil-append s))
    ∙ rw h (ground arith)

-- A number that fits an `int` is read back as it was written.
pub atoi-decimal : (n : ℤ) → IsInt64 n → atoi (decimal n) ≡ some n
unfolding decimal
atoi-decimal (pos n) h = atoi-unsigned _ n (unsigned-decimal (n + 1) n (omega arith)) h
atoi-decimal (negsuc n) h =
    atoi-minus (decimal_fuel (n + 2) (n + 1)) n (unsigned-decimal (n + 2) (n + 1) (omega arith)) h
