-- ===== src/Scm/DeficitLock/Balance.antt =====
-- scm/internal/consumer/deficit_lock.go: the quantities that the effects of a run move.
use zeus_be.Prelude.{
  ℕ, ◌<◌, ◌+◌, ◌^◌, ℤ, pos, ◌+ℤ◌, ◌-ℤ◌, int_laws, String, str_eq, List, [], ◌∷◌, ◌++◌,
  if◌then◌else◌, ◌≡◌, refl, ap,
}
use zeus_be.Scm.DeficitLock.{
  FetchedMessage, Fetch, message, malformed, unavailable, Effect, acks, discards, republishes,
  dead_letters, publishes_to_pool, publishes_to_reserved, panics, closes, retry_count,
}

-- What an effect does to the quantity of the part `s` that the queues hold: a message that is
-- acknowledged leaves them, one that is published enters.
abbrev amount_of : String → FetchedMessage → ℤ
amount_of s fm = if str_eq fm.sku s then fm.qty else pos 0

abbrev pub amount : String → Effect → ℤ
amount s (acks fm) = pos 0 -ℤ amount_of s fm
amount s (discards tag) = pos 0
amount s (republishes fm count delay) = amount_of s fm
amount s (dead_letters fm count) = amount_of s fm
amount s (publishes_to_pool sku qty) = if str_eq sku s then qty else pos 0
amount s (publishes_to_reserved sku qty) = if str_eq sku s then qty else pos 0
amount s panics = pos 0
amount s closes = pos 0

abbrev pub balance : String → List Effect → ℤ
balance s [] = pos 0
balance s (e ∷ es) = amount s e +ℤ balance s es

-- The same without the republications that are made after a delay.
abbrev pub at_once : String → Effect → ℤ
at_once s (republishes fm count delay) = pos 0
at_once s e = amount s e

abbrev pub moved_at_once : String → List Effect → ℤ
moved_at_once s [] = pos 0
moved_at_once s (e ∷ es) = at_once s e +ℤ moved_at_once s es

-- What those republications are to put back.
abbrev pub late : String → Effect → ℤ
late s (republishes fm count delay) = amount_of s fm
late s e = pos 0

abbrev pub delayed : String → List Effect → ℤ
delayed s [] = pos 0
delayed s (e ∷ es) = late s e +ℤ delayed s es

split-one : (s : String) (e : Effect) → amount s e ≡ at_once s e +ℤ late s e
split-one s (acks fm) = omega int_laws
split-one s (discards tag) = omega int_laws
split-one s (republishes fm count delay) = omega int_laws
split-one s (dead_letters fm count) = omega int_laws
split-one s (publishes_to_pool sku qty) = omega int_laws
split-one s (publishes_to_reserved sku qty) = omega int_laws
split-one s panics = omega int_laws
split-one s closes = omega int_laws

pub split : (s : String) (es : List Effect) → balance s es ≡ moved_at_once s es +ℤ delayed s es
split s [] = omega int_laws
split s (e ∷ es) = rw (split-one s e, split s es) (omega int_laws)

abbrev pub total : List FetchedMessage → ℤ
total [] = pos 0
total (fm ∷ fms) = fm.qty +ℤ total fms

-- The retry count of the message is a count: not negative, and below the largest int32.
abbrev pub IsCounted : FetchedMessage → Type 0
IsCounted fm = (n : ℕ) × (retry_count fm.retry ≡ pos n) × (n + 1 < 2 ^ 31)

abbrev pub FetchIsCounted : Fetch → Type 0
FetchIsCounted (message fm) = IsCounted fm
FetchIsCounted (malformed tag) = Unit
FetchIsCounted (unavailable e) = Unit

pub balance-append :
    (s : String) (xs ys : List Effect) → balance s (xs ++ ys) ≡ balance s xs +ℤ balance s ys
balance-append s [] ys = omega int_laws
balance-append s (x ∷ xs) ys = rw (balance-append s xs ys) (omega int_laws)

pub total-append :
    (xs : List FetchedMessage) (fm : FetchedMessage) → total (xs ++ fm ∷ []) ≡ total xs +ℤ fm.qty
total-append [] fm = omega int_laws
total-append (x ∷ xs) fm = rw (total-append xs fm) (omega int_laws)

-- The reservations that a run asks for, in order.
abbrev pub reservations : List Effect → List (String × ℤ)
reservations [] = []
reservations (publishes_to_reserved sku qty ∷ es) = (sku, qty) ∷ reservations es
reservations (e ∷ es) = reservations es

pub reservations-append :
    (xs ys : List Effect) → reservations (xs ++ ys) ≡ reservations xs ++ reservations ys
reservations-append [] ys = refl
reservations-append (publishes_to_reserved sku qty ∷ xs) ys =
    ap (◌∷◌ (sku, qty)) (reservations-append xs ys)
reservations-append (acks fm ∷ xs) ys = reservations-append xs ys
reservations-append (discards tag ∷ xs) ys = reservations-append xs ys
reservations-append (republishes fm n d ∷ xs) ys = reservations-append xs ys
reservations-append (dead_letters fm n ∷ xs) ys = reservations-append xs ys
reservations-append (publishes_to_pool s n ∷ xs) ys = reservations-append xs ys
reservations-append (panics ∷ xs) ys = reservations-append xs ys
reservations-append (closes ∷ xs) ys = reservations-append xs ys
