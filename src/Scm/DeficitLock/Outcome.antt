-- ===== src/Scm/DeficitLock/Outcome.antt =====
-- scm/internal/consumer/deficit_lock.go: when a reservation is made, and what the caller is told.
use mathlib.Core.List.{append-nil}
use zeus_be.Prelude.{
  ap, ◌∙◌, ℕ, ℤ, String, Bool, true, false, Option, none, some, List, [], ◌∷◌, leb_ℤ, if◌then◌else◌,
  ok, err, ◌≡◌, refl, arith, All, Bool-cases, inl, inr,
}
use zeus_be.Scm.Errors.{insufficient_deficit}
use zeus_be.Scm.DeficitLock.{
  FetchedMessage, Fetch, Collected, nothing_collected, collect, ack_all, requeue_all,
  requeue_with_backoff, requeue_at, remainder, settle, worker, done, closes, closing, lock_deficit,
}
use zeus_be.Scm.DeficitLock.Balance.{FetchIsCounted, reservations, reservations-append}
use zeus_be.Scm.DeficitLock.Collect.{collect-IsCollected, collect-discards, nothing-IsCollected}
use zeus_be.Scm.DeficitLock.Conservation.{finished, settle-calm}

-- The pool gave the whole quantity before a fetch failed.
abbrev is_reached : ℤ → Collected → Option ℕ → Bool
is_reached qty c none = leb_ℤ qty c.accumulated_qty
is_reached qty c (some e) = false

abbrev pub is_enough : String → ℤ → List Fetch → Bool
is_enough sku qty fetches =
    let c = collect sku qty nothing_collected fetches in is_reached qty c c.fetch_error

reservations-requeue :
    (channel : Bool) (fm : FetchedMessage) (n : ℤ) → reservations (requeue_at channel fm n) ≡ []
unfolding requeue_at
reservations-requeue channel fm n = ground arith

reservations-requeue_all :
    (channel : Bool) (fms : List FetchedMessage) → reservations (requeue_all channel fms) ≡ []
unfolding requeue_all requeue_with_backoff
reservations-requeue_all channel [] = refl
reservations-requeue_all channel (fm ∷ fms) =
    rw (reservations-append, reservations-requeue) (reservations-requeue_all channel fms)

reservations-ack_all : (fms : List FetchedMessage) → reservations (ack_all fms) ≡ []
unfolding ack_all
reservations-ack_all [] = refl
reservations-ack_all (fm ∷ fms) = reservations-ack_all fms

reservations-remainder : (sku : String) (qty n : ℤ) → reservations (remainder sku qty n) ≡ []
unfolding remainder
reservations-remainder sku qty n = ground arith

settle-reservations :
    (sku : String) (qty : ℤ) (re : Option ℕ) (c : Collected) (e : Option ℕ)
    → reservations c.discarded ≡ []
    → reservations (settle true re sku qty c e).1
      ≡ (if is_reached qty c e then (sku, qty) ∷ [] else [])
unfolding settle
settle-reservations sku qty re c (some e) h = rw (
  reservations-append, h, reservations-append, reservations-requeue_all, reservations-requeue_all,
)
settle-reservations sku qty re c none h = elim (Bool-cases (leb_ℤ qty c.accumulated_qty)) [
  | inl enough ↦ rw (
    enough, reservations-append, h, reservations-append, reservations-ack_all, reservations-append,
    reservations-requeue_all, reservations-append, reservations-remainder,
  )
  | inr short ↦ rw (
    short, reservations-append, h, reservations-append, reservations-requeue_all,
    reservations-requeue_all,
  )
]

-- A run that the caller waits for asks for a reservation of the quantity that was asked for, once,
-- if the pool gave it, and for none otherwise.
lock_deficit-reservations :
    (sku : String) (qty : ℤ) (re : Option ℕ) (fetches : List Fetch)
    → All FetchIsCounted fetches
    → reservations (lock_deficit none true re done sku qty fetches).1
      ≡ (if is_enough sku qty fetches then (sku, qty) ∷ [] else [])
unfolding lock_deficit worker closing
lock_deficit-reservations sku qty re fetches counted =
    let c = collect sku qty nothing_collected fetches in
    let h =
      collect-IsCollected sku qty fetches nothing_collected (nothing-IsCollected sku) counted in
    let es = (settle true re sku qty c c.fetch_error).1 in
    ap reservations (finished es (settle-calm sku qty re c c.fetch_error h))
    ∙ reservations-append es (closes ∷ [])
    ∙ append-nil (reservations es)
    ∙ settle-reservations sku qty re c c.fetch_error
        (collect-discards sku qty fetches nothing_collected refl)

settle-result :
    (channel : Bool) (sku : String) (qty : ℤ) (re : Option ℕ) (c : Collected) (e : Option ℕ)
    → (settle channel re sku qty c e).0 ≡ ok tt
    → (is_reached qty c e ≡ true) × (re ≡ none)
unfolding settle
settle-result channel sku qty re c e h = ground arith

settle-insufficient :
    (channel : Bool) (sku : String) (qty : ℤ) (re : Option ℕ) (c : Collected) (e : Option ℕ)
    → (settle channel re sku qty c e).0 ≡ err insufficient_deficit
    → is_reached qty c e ≡ false
unfolding settle
settle-insufficient channel sku qty re c e h = ground arith

-- To a caller that waits for the worker, success means that exactly the quantity asked for was
-- reserved, once and with no error of the broker, and `ErrInsufficientDeficit` that nothing was.
pub lock_deficit-told :
    (sku : String) (qty : ℤ) (re : Option ℕ) (fetches : List Fetch)
    → All FetchIsCounted fetches
    → let (r, es) = lock_deficit none true re done sku qty fetches in
      (r ≡ ok tt → (reservations es ≡ (sku, qty) ∷ []) × (re ≡ none))
      × (r ≡ err insufficient_deficit → reservations es ≡ [])
unfolding lock_deficit worker
lock_deficit-told sku qty re fetches counted =
    let all = lock_deficit-reservations sku qty re fetches counted in
    let c = collect sku qty nothing_collected fetches in
    (
      λ h.
          let (enough, sent) = settle-result true sku qty re c c.fetch_error h in
          (rw enough at all, sent),
      λ h. let short = settle-insufficient true sku qty re c c.fetch_error h in rw short at all,
    )
