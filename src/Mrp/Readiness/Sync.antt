-- ===== src/Mrp/Readiness/Sync.antt =====
-- mrp/internal/service/readiness_service.go, `syncShortagesInDB`: the shortages that are stored
-- afterwards are those of the results.
use zeus_be.Prelude.{
  ℕ, ℤ, pos, add64, sub64, leb_ℤ, Option, none, some, List, [], ◌∷◌, if◌then◌else◌, ◌≡◌, ◌≢◌, All,
}
use zeus_be.Mrp.Readiness.{MrpDeps, BomExplosionResult, ShortageLog, existing_log}
use zeus_be.Mrp.Readiness.Store.{MrpStore, Matches}

-- What is required beyond what is at hand and on its way, as an `int`.
abbrev pub missing : BomExplosionResult → ℤ
missing result = sub64 result.total_required_qty (add64 result.available_qty result.allocated_qty)

-- The shortage of a result that is marked as short: what is missing, if that is positive.
abbrev pub needed : BomExplosionResult → Option ℤ
needed result =
    if result.is_shortage
    then (if leb_ℤ (missing result) (pos 0) then none else some (missing result))
    else none

-- No two results are of one part.
abbrev pub IsDistinct : List BomExplosionResult → Type 0
IsDistinct [] = Unit
IsDistinct (result ∷ results) =
    All (λ (other : BomExplosionResult). result.part_id ≢ other.part_id) results
    × IsDistinct results

module _ {W : Type 0} (D : MrpDeps W) (S : MrpStore D) (order : ℕ) where
  open S use {shortage_of}

  abbrev IsAt : ℕ → Option ℤ → W → Type 0
  IsAt p x w = shortage_of order p w ≡ x

  -- The logs say what is stored for every part of the results.
  abbrev Read : List ShortageLog → List BomExplosionResult → W → Type 0
  Read logs results w =
      All
        (λ (result : BomExplosionResult).
          Matches order result.part_id (shortage_of order result.part_id w)
            (existing_log result.part_id none logs))
        results

  -- Every result is stored, and nothing else has changed.
  abbrev pub IsSynced : List BomExplosionResult → W → W → Type 0
  IsSynced results w u =
      All (λ (result : BomExplosionResult). shortage_of order result.part_id u ≡ needed result)
        results
      × ((p : ℕ)
          → All (λ (result : BomExplosionResult). result.part_id ≢ p) results
          → shortage_of order p u ≡ shortage_of order p w)
