-- ===== src/Scm/DeficitLock/Tests.antt =====
-- A pool with three deficits of a CPU and one of a fan, and the theorems at it.
use zeus_be.Prelude.{
  ◌++◌, All, add64, wrap64, ◌+ℤ◌, ℕ, ℤ, pos, String, true, Option, none, List, [], ◌∷◌, ok, err,
  ◌≡◌, refl, arith,
}
use zeus_be.Scm.Errors.{insufficient_deficit}
use zeus_be.Scm.DeficitLock.{
  FetchedMessage, retry_count, RetryHeader, of_int32, unread, Fetch, message, malformed, acks,
  republishes, collect, lock_deficit, requeue_with_backoff, done, Effect, closes,
}
use zeus_be.Scm.DeficitLock.Balance.{moved_at_once, delayed, FetchIsCounted, reservations}
use zeus_be.Scm.DeficitLock.Conservation.{lock_deficit-balance}
use zeus_be.Scm.DeficitLock.Outcome.{lock_deficit-told}
use zeus_be.Scm.DeficitLock.Backoff.{requeue_with_backoff_lem}

abbrev deficit : ℕ → String → ℤ → RetryHeader → FetchedMessage
deficit tag sku qty retry = record { delivery_tag = tag; sku = sku; qty = qty; retry = retry }

abbrev pool : List Fetch
pool =
    message (deficit 1 "FAN" (pos 9) unread)
    ∷ message (deficit 2 "CPU" (pos 3) (of_int32 (pos 2)))
    ∷ malformed 3
    ∷ message (deficit 4 "CPU" (pos 4) unread)
    ∷ []

pool_counted : All FetchIsCounted pool
unfolding retry_count
pool_counted =
    ((0, refl, omega arith), ((2, refl, omega arith), (tt, ((0, refl, omega arith), tt))))

lock_deficit-balance_example :
    (es : List Effect) × ((lock_deficit none true none done "CPU" (pos 5) pool).1
      ≡ es ++ closes ∷ [])
    × (moved_at_once "CPU" es +ℤ delayed "CPU" es ≡ pos 0)
unfolding collect lock_deficit add64 wrap64 ◌+ℤ◌
lock_deficit-balance_example =
    lock_deficit-balance "CPU" "CPU" (pos 5) none pool pool_counted (omega arith) (omega arith)

lock_deficit-told_example :
    let (r, es) = lock_deficit none true none done "CPU" (pos 5) pool in
    (r ≡ ok tt → (reservations es ≡ ("CPU", pos 5) ∷ []) × (◌≡◌ {A = Option ℕ} none none))
    × (r ≡ err insufficient_deficit → reservations es ≡ [])
lock_deficit-told_example = lock_deficit-told "CPU" (pos 5) none pool pool_counted

requeue_with_backoff_lem_example :
    requeue_with_backoff true (deficit 2 "CPU" (pos 3) (of_int32 (pos 2)))
    ≡ acks (deficit 2 "CPU" (pos 3) (of_int32 (pos 2)))
      ∷ republishes (deficit 2 "CPU" (pos 3) (of_int32 (pos 2))) (pos 3) 400
      ∷ []
requeue_with_backoff_lem_example =
    requeue_with_backoff_lem (deficit 2 "CPU" (pos 3) (of_int32 (pos 2))) 2 refl (omega arith)
