-- ===== src/Scm/DeficitLock/Backoff.antt =====
-- scm/internal/consumer/deficit_lock.go, `requeueWithBackoff`: how often and how late a message
-- comes back.
use zeus_be.Prelude.{
  zero, Bool, false, not, suc, ℕ, ◌+◌, ◌<◌, ◌*◌, ◌^◌, pos, add64, wrap32, true, [], ◌∷◌, ltb,
  if◌then◌else◌, ◌≡◌, refl, arith, Bool-cases, inl, inr,
}
use zeus_be.Scm.DeficitLock.Conservation.{next_count}
use zeus_be.Scm.DeficitLock.{
  FetchedMessage, of_int32, acks, republishes, dead_letters, backoff, requeue_at, retry_count,
  requeue_with_backoff,
}

last_try : (n : ℕ) (b : Bool) → ltb n 5 ≡ b → ltb 5 (n + 1) ≡ not b
last_try n true h = ground arith
last_try n false h = ground arith

delay : (n : ℕ) → ltb n 5 ≡ true → backoff (n + 1) ≡ 100 * 2 ^ n
unfolding backoff
delay zero h = refl
delay (suc zero) h = refl
delay (suc (suc zero)) h = refl
delay (suc (suc (suc zero))) h = refl
delay (suc (suc (suc (suc zero)))) h = refl
delay (suc (suc (suc (suc (suc n))))) h = ground arith

-- A message that was put back `n` times, n at most 4, is put back once more, after 100 · 2ⁿ
-- milliseconds; one that was put back 5 times or more is a dead letter. Either way it is
-- acknowledged first.
pub requeue_with_backoff_lem :
    (fm : FetchedMessage) (n : ℕ)
    → fm.retry ≡ of_int32 (pos n)
    → n + 1 < 2 ^ 31
    → requeue_with_backoff true fm ≡ (
        if ltb n 5
        then acks fm ∷ republishes fm (pos (n + 1)) (100 * 2 ^ n) ∷ []
        else acks fm ∷ dead_letters fm (pos (n + 1)) ∷ [])
unfolding requeue_with_backoff requeue_at retry_count backoff
requeue_with_backoff_lem fm n e h =
    let count : wrap32 (add64 (retry_count fm.retry) (pos 1)) ≡ pos (n + 1) =
      next_count fm n (rw e refl) h in
    rw count (elim (Bool-cases (ltb n 5)) [
      | inl again ↦ rw (last_try n true again, again, delay n again)
      | inr dead ↦ rw (last_try n false dead, dead)
    ])
