-- ===== src/Scm/DeficitLock/Conservation.antt =====
-- scm/internal/consumer/deficit_lock.go: what the effects of a run take out of the pool and put back.
use zeus_be.Prelude.{
  ℕ, ◌<◌, ◌+◌, ◌^◌, ℤ, pos, ◌+ℤ◌, ◌-ℤ◌, ◌≤ℤ◌, add64, sub64-eq, sub-IsInt64, wrap32, wrap64-eq,
  +ℤ-zero, eq_of_le, leb_ℤ→le, IsInt64, int_laws, String, str_eq, true, Option, none, some, List,
  [], ◌∷◌, ◌++◌, ltb, ltb_ℤ, leb_ℤ, if◌then◌else◌, ◌≡◌, ◌≢◌, refl, sym, ap, ◌∙◌, arith, All,
  Bool-cases, inl, inr,
}
use zeus_be.Scm.DeficitLock.{
  FetchedMessage, Fetch, Effect, acks, discards, republishes, dead_letters, publishes_to_pool,
  publishes_to_reserved, panics, closes, close_last, closing, done, retry_count, requeue_at,
  requeue_with_backoff, Collected, nothing_collected, collect, ack_all, requeue_all, remainder,
  settle, until_panic, worker, lock_deficit,
}
use zeus_be.Scm.DeficitLock.Balance.{
  moved_at_once, delayed, split, balance, total, IsCounted, FetchIsCounted, balance-append,
}
use zeus_be.Scm.DeficitLock.Collect.{IsCollected, collect-IsCollected, nothing-IsCollected}

pub next_count :
    (fm : FetchedMessage) (n : ℕ)
    → retry_count fm.retry ≡ pos n
    → n + 1 < 2 ^ 31
    → wrap32 (add64 (retry_count fm.retry) (pos 1)) ≡ pos (n + 1)
unfolding wrap32 add64
next_count fm n e h = rw e (ground arith)

requeue_at-balance :
    (s : String) (fm : FetchedMessage) (k : ℕ) → balance s (requeue_at true fm (pos k)) ≡ pos 0
unfolding requeue_at
requeue_at-balance s fm k = elim (Bool-cases (ltb 5 k)) [
  | inl dead ↦ rw dead (omega int_laws)
  | inr live ↦ rw live (omega int_laws)
]

requeue-balance :
    (s : String) (fm : FetchedMessage)
    → IsCounted fm
    → balance s (requeue_with_backoff true fm) ≡ pos 0
unfolding requeue_with_backoff
requeue-balance s fm (n, e, h) = rw (next_count fm n e h) (requeue_at-balance s fm (n + 1))

requeue_all-balance :
    (s : String) (fms : List FetchedMessage)
    → All IsCounted fms
    → balance s (requeue_all true fms) ≡ pos 0
unfolding requeue_all
requeue_all-balance s [] h = refl
requeue_all-balance s (fm ∷ fms) h =
    rw (balance-append, requeue-balance s fm h.0, requeue_all-balance s fms h.1) (omega int_laws)

ack_all-balance :
    (s sku : String) (fms : List FetchedMessage)
    → All (λ fm. fm.sku ≡ sku) fms
    → balance s (ack_all fms) ≡ pos 0 -ℤ (if str_eq sku s then total fms else pos 0)
unfolding ack_all
ack_all-balance s sku [] h = elim (Bool-cases (str_eq sku s)) [
  | inl same ↦ rw same (omega int_laws)
  | inr other ↦ rw other (omega int_laws)
]
ack_all-balance s sku (fm ∷ fms) h = elim (Bool-cases (str_eq sku s)) [
  | inl same ↦ rw (ack_all-balance s sku fms h.1, h.0, same) (omega int_laws)
  | inr other ↦ rw (ack_all-balance s sku fms h.1, h.0, other) (omega int_laws)
]

-- The remainder and the reservation together are the quantity that was taken.
taken-balance :
    (s sku : String) (qty accumulated : ℤ)
    → IsInt64 accumulated
    → pos 0 ≤ℤ qty
    → qty ≤ℤ accumulated
    → balance s (remainder sku qty accumulated ++ publishes_to_reserved sku qty ∷ [])
      ≡ (if str_eq sku s then accumulated else pos 0)
unfolding remainder
taken-balance s sku qty accumulated h p q =
    let exact = sub64-eq accumulated qty (sub-IsInt64 accumulated qty h p q) in
    elim (Bool-cases (str_eq sku s)) [
      | inl same ↦ elim (Bool-cases (ltb_ℤ qty accumulated)) [
        | inl more ↦ rw (more, same, exact) (omega int_laws)
        | inr equal ↦ rw (equal, same) (+ℤ-zero qty ∙ eq_of_le qty accumulated q equal)
      ]
      | inr other ↦ elim (Bool-cases (ltb_ℤ qty accumulated)) [
        | inl more ↦ rw (more, other) (omega int_laws)
        | inr equal ↦ rw (equal, other) (omega int_laws)
      ]
    ]

settle-balance :
    (s sku : String) (qty : ℤ) (reserve_error : Option ℕ) (c : Collected) (e : Option ℕ)
    → IsCollected sku c
    → IsInt64 (total c.matched)
    → pos 0 ≤ℤ qty
    → balance s (settle true reserve_error sku qty c e).1 ≡ pos 0
unfolding settle
settle-balance s sku qty re c (some e) h r p =
    rw
      (
        balance-append,
        h.discards_nothing s,
        balance-append,
        requeue_all-balance s c.matched h.counted,
        requeue_all-balance s c.unmatched h.counted_others,
      )
      (omega int_laws)
settle-balance s sku qty re c none h r p =
    let exact : c.accumulated_qty ≡ total c.matched = h.adds_up ∙ wrap64-eq (total c.matched) r in
    elim (Bool-cases (leb_ℤ qty c.accumulated_qty)) [
      | inl enough ↦
          let taken =
            taken-balance s sku qty c.accumulated_qty (rw exact r) p
              (leb_ℤ→le qty c.accumulated_qty enough) in
          rw
            (
              enough,
              balance-append,
              h.discards_nothing s,
              balance-append,
              ack_all-balance s sku c.matched h.matches,
              balance-append,
              requeue_all-balance s c.unmatched h.counted_others,
              taken,
              exact,
            )
            (omega int_laws)
      | inr short ↦
          rw
            (
              short,
              balance-append,
              h.discards_nothing s,
              balance-append,
              requeue_all-balance s c.matched h.counted,
              requeue_all-balance s c.unmatched h.counted_others,
            )
            (omega int_laws)
    ]

calm-append :
    (xs ys : List Effect)
    → All (λ e. e ≢ panics) xs
    → All (λ e. e ≢ panics) ys
    → All (λ e. e ≢ panics) (xs ++ ys)
calm-append [] ys h k = k
calm-append (x ∷ xs) ys h k = (h.0, calm-append xs ys h.1 k)

until_panic-calm : (es : List Effect) → All (λ e. e ≢ panics) es → until_panic es ≡ es
unfolding until_panic
until_panic-calm [] h = refl
until_panic-calm (acks fm ∷ es) h = ap (◌∷◌ (acks fm)) (until_panic-calm es h.1)
until_panic-calm (discards tag ∷ es) h = ap (◌∷◌ (discards tag)) (until_panic-calm es h.1)
until_panic-calm (republishes fm n d ∷ es) h =
    ap (◌∷◌ (republishes fm n d)) (until_panic-calm es h.1)
until_panic-calm (dead_letters fm n ∷ es) h = ap (◌∷◌ (dead_letters fm n)) (until_panic-calm es h.1)
until_panic-calm (publishes_to_pool s n ∷ es) h =
    ap (◌∷◌ (publishes_to_pool s n)) (until_panic-calm es h.1)
until_panic-calm (publishes_to_reserved s n ∷ es) h =
    ap (◌∷◌ (publishes_to_reserved s n)) (until_panic-calm es h.1)
until_panic-calm (panics ∷ es) h = absurd (h.0 refl)
until_panic-calm (closes ∷ es) h = ap (◌∷◌ closes) (until_panic-calm es h.1)

requeue_at-calm : (fm : FetchedMessage) (k : ℕ) → All (λ e. e ≢ panics) (requeue_at true fm (pos k))
unfolding requeue_at
requeue_at-calm fm k = elim (Bool-cases (ltb 5 k)) [
  | inl dead ↦ rw dead (λ e. cc, (λ e. cc, tt))
  | inr live ↦ rw live (λ e. cc, (λ e. cc, tt))
]

requeue_all-calm :
    (fms : List FetchedMessage) → All IsCounted fms → All (λ e. e ≢ panics) (requeue_all true fms)
unfolding requeue_all requeue_with_backoff
requeue_all-calm [] h = tt
requeue_all-calm (fm ∷ fms) ((n, e, lt), h) =
    calm-append (requeue_with_backoff true fm) (requeue_all true fms)
      (rw (next_count fm n e lt) (requeue_at-calm fm (n + 1))) (requeue_all-calm fms h)

ack_all-calm : (fms : List FetchedMessage) → All (λ e. e ≢ panics) (ack_all fms)
unfolding ack_all
ack_all-calm [] = tt
ack_all-calm (fm ∷ fms) = (λ e. cc, ack_all-calm fms)

taken-calm :
    (sku : String) (qty n : ℤ)
    → All (λ e. e ≢ panics) (remainder sku qty n ++ publishes_to_reserved sku qty ∷ [])
unfolding remainder
taken-calm sku qty n = elim (Bool-cases (ltb_ℤ qty n)) [
  | inl more ↦ rw more (λ e. cc, (λ e. cc, tt))
  | inr equal ↦ rw equal (λ e. cc, tt)
]

pub settle-calm :
    (sku : String) (qty : ℤ) (re : Option ℕ) (c : Collected) (e : Option ℕ)
    → IsCollected sku c
    → All (λ e. e ≢ panics) (settle true re sku qty c e).1
unfolding settle
settle-calm sku qty re c (some e) h = calm-append c.discarded _ h.calm (
    calm-append (requeue_all true c.matched) _ (requeue_all-calm c.matched h.counted)
      (requeue_all-calm c.unmatched h.counted_others))
settle-calm sku qty re c none h = elim (Bool-cases (leb_ℤ qty c.accumulated_qty)) [
  | inl enough ↦ rw enough (
      calm-append c.discarded _ h.calm (
        calm-append (ack_all c.matched) _ (ack_all-calm c.matched) (
          calm-append (requeue_all true c.unmatched) _
            (requeue_all-calm c.unmatched h.counted_others)
            (taken-calm sku qty c.accumulated_qty))))
  | inr short ↦ rw short (
      calm-append c.discarded _ h.calm (
        calm-append (requeue_all true c.matched) _ (requeue_all-calm c.matched h.counted)
          (requeue_all-calm c.unmatched h.counted_others)))
]

close_last-calm : (es : List Effect) → All (λ e. e ≢ panics) es → close_last es ≡ es ++ closes ∷ []
unfolding close_last
close_last-calm [] h = refl
close_last-calm (acks fm ∷ es) h = ap (◌∷◌ (acks fm)) (close_last-calm es h.1)
close_last-calm (discards tag ∷ es) h = ap (◌∷◌ (discards tag)) (close_last-calm es h.1)
close_last-calm (republishes fm n d ∷ es) h = ap (◌∷◌ (republishes fm n d)) (close_last-calm es h.1)
close_last-calm (dead_letters fm n ∷ es) h = ap (◌∷◌ (dead_letters fm n)) (close_last-calm es h.1)
close_last-calm (publishes_to_pool s n ∷ es) h =
    ap (◌∷◌ (publishes_to_pool s n)) (close_last-calm es h.1)
close_last-calm (publishes_to_reserved s n ∷ es) h =
    ap (◌∷◌ (publishes_to_reserved s n)) (close_last-calm es h.1)
close_last-calm (panics ∷ es) h = absurd (h.0 refl)
close_last-calm (closes ∷ es) h = ap (◌∷◌ closes) (close_last-calm es h.1)

-- A run whose caller waits for it ends with the close of the connection.
pub finished :
    (es : List Effect) → All (λ e. e ≢ panics) es → close_last (until_panic es) ≡ es ++ closes ∷ []
finished es h = ap close_last (until_panic-calm es h) ∙ close_last-calm es h

-- Whatever the pool returns, with a channel, with retry counts that are counts, for a quantity that
-- is not negative and with a total that fits an int: a run whose caller waits for it makes its effects and then closes the
-- connection. For every part, what the effects take out of the pool is what they put at once into
-- the pool, the dead letters and the reservation, together with what is left to republications
-- that sleep first, for which the close does not wait. This counts what is published as accepted by
-- the broker.
pub lock_deficit-balance :
    (s sku : String) (qty : ℤ) (reserve_error : Option ℕ) (fetches : List Fetch)
    → All FetchIsCounted fetches
    → pos 0 ≤ℤ qty
    → IsInt64 (total (collect sku qty nothing_collected fetches).matched)
    → (es : List Effect) × ((lock_deficit none true reserve_error done sku qty fetches).1
        ≡ es ++ closes ∷ [])
      × (moved_at_once s es +ℤ delayed s es ≡ pos 0)
unfolding lock_deficit worker closing
lock_deficit-balance s sku qty re fetches counted p range =
    let c = collect sku qty nothing_collected fetches in
    let h =
      collect-IsCollected sku qty fetches nothing_collected (nothing-IsCollected sku) counted in
    let es = (settle true re sku qty c c.fetch_error).1 in
    (
      es,
      finished es (settle-calm sku qty re c c.fetch_error h),
      sym (split s es) ∙ settle-balance s sku qty re c c.fetch_error h range p,
    )
