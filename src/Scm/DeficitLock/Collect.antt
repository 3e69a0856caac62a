-- ===== src/Scm/DeficitLock/Collect.antt =====
-- scm/internal/consumer/deficit_lock.go: what the fetch loop of `LockDeficit` has collected.
use zeus_be.Prelude.{
  ℤ, pos, ◌+ℤ◌, add64, wrap64, wrap64-+ℤ, int_laws, String, str_eq, eq_iff, List, [], ◌∷◌, ◌++◌,
  leb_ℤ, ◌≡◌, ◌≢◌, refl, All, Bool-cases, inl, inr,
}
use zeus_be.Scm.DeficitLock.{
  FetchedMessage, Fetch, message, malformed, unavailable, discards, panics, Collected,
  nothing_collected, collect,
}
use zeus_be.Scm.DeficitLock.Balance.{
  balance, total, IsCounted, FetchIsCounted, balance-append, total-append, reservations,
  reservations-append,
}

-- What the loop keeps: the running total is the total of the matches, which are all of the part
-- that is asked for, every message is counted, and what was discarded held no quantity.
pub record IsCollected (sku : String) (c : Collected) : Type 0 where
  pub adds_up : c.accumulated_qty ≡ wrap64 (total c.matched)
  pub matches : All (λ fm. fm.sku ≡ sku) c.matched
  pub counted : All IsCounted c.matched
  pub counted_others : All IsCounted c.unmatched
  pub discards_nothing : (s : String) → balance s c.discarded ≡ pos 0
  pub calm : All (λ e. e ≢ panics) c.discarded

All-snoc :
    {A : Type 0} (P : A → Type 0) (xs : List A) (a : A) → All P xs → P a → All P (xs ++ a ∷ [])
All-snoc P [] a h p = (p, tt)
All-snoc P (x ∷ xs) a h p = (h.0, All-snoc P xs a h.1 p)

running_total : (a b : ℤ) → add64 (wrap64 a) b ≡ wrap64 (a +ℤ b)
unfolding add64
running_total a b = wrap64-+ℤ a b

match-IsCollected :
    (sku : String) (c : Collected) (fm : FetchedMessage)
    → IsCollected sku c
    → fm.sku ≡ sku
    → IsCounted fm
    → IsCollected sku (record c {
      matched = c.matched ++ fm ∷ [];
      accumulated_qty = add64 c.accumulated_qty fm.qty;
    })
match-IsCollected sku c fm h same n = record {
  adds_up = rw (h.adds_up, total-append) (running_total (total c.matched) fm.qty);
  matches = All-snoc _ c.matched fm h.matches same;
  counted = All-snoc _ c.matched fm h.counted n;
  counted_others = h.counted_others;
  discards_nothing = h.discards_nothing;
  calm = h.calm;
}

-- The loop keeps it.
pub collect-IsCollected :
    (sku : String) (qty : ℤ) (fetches : List Fetch) (c : Collected)
    → IsCollected sku c
    → All FetchIsCounted fetches
    → IsCollected sku (collect sku qty c fetches)
unfolding collect
collect-IsCollected sku qty [] c h p = h
collect-IsCollected sku qty (unavailable e ∷ rest) c h p = record {
  adds_up = h.adds_up;
  matches = h.matches;
  counted = h.counted;
  counted_others = h.counted_others;
  discards_nothing = h.discards_nothing;
  calm = h.calm;
}
collect-IsCollected sku qty (malformed tag ∷ rest) c h p =
    collect-IsCollected sku qty rest _
      (record {
        adds_up = h.adds_up;
        matches = h.matches;
        counted = h.counted;
        counted_others = h.counted_others;
        discards_nothing = λ s. rw (balance-append, h.discards_nothing s) (omega int_laws);
        calm = All-snoc _ c.discarded (discards tag) h.calm (λ e. cc);
      })
      p.1
collect-IsCollected sku qty (message fm ∷ rest) c h p = elim (Bool-cases (str_eq fm.sku sku)) [
  | inl same ↦
      let h' = match-IsCollected sku c fm h ((eq_iff fm.sku sku).0 same) p.0 in
      elim (Bool-cases (leb_ℤ qty (add64 c.accumulated_qty fm.qty))) [
        | inl reached ↦ rw (same, reached) h'
        | inr short ↦ rw (same, short) (collect-IsCollected sku qty rest _ h' p.1)
      ]
  | inr other ↦ rw other (
      collect-IsCollected sku qty rest _
        (record {
          adds_up = h.adds_up;
          matches = h.matches;
          counted = h.counted;
          counted_others = All-snoc _ c.unmatched fm h.counted_others p.0;
          discards_nothing = h.discards_nothing;
          calm = h.calm;
        })
        p.1)
]

pub nothing-IsCollected : (sku : String) → IsCollected sku nothing_collected
unfolding wrap64
nothing-IsCollected sku = record {
  adds_up = refl;
  matches = tt;
  counted = tt;
  counted_others = tt;
  discards_nothing = λ s. refl;
  calm = tt;
}

-- What is discarded is no more than discarded.
pub collect-discards :
    (sku : String) (qty : ℤ) (fetches : List Fetch) (c : Collected)
    → reservations c.discarded ≡ []
    → reservations (collect sku qty c fetches).discarded ≡ []
unfolding collect
collect-discards sku qty [] c h = h
collect-discards sku qty (unavailable e ∷ rest) c h = h
collect-discards sku qty (malformed tag ∷ rest) c h =
    collect-discards sku qty rest _ (rw (reservations-append, h))
collect-discards sku qty (message fm ∷ rest) c h = elim (Bool-cases (str_eq fm.sku sku)) [
  | inl same ↦ elim (Bool-cases (leb_ℤ qty (add64 c.accumulated_qty fm.qty))) [
    | inl reached ↦ rw (same, reached) h
    | inr short ↦ rw (same, short) (collect-discards sku qty rest _ h)
  ]
  | inr other ↦ rw other (collect-discards sku qty rest _ h)
]
