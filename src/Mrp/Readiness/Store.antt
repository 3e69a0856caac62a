-- ===== src/Mrp/Readiness/Store.antt =====
-- What the readiness check relies on: the repository keeps at most one shortage for each order and
-- part, with its quantity.
use zeus_be.Prelude.{ℕ, ℤ, String, Option, none, some, List, ◌≡◌, ◌≢◌, ok}
use zeus_be.Mrp.Readiness.{MrpDeps, ShortageLog, existing_log}

-- What a found log says of the stored quantity.
abbrev pub Matches : ℕ → ℕ → Option ℤ → Option ShortageLog → Type 0
Matches order part stored none = stored ≡ none
Matches order part stored (some log) =
    (stored ≡ some log.shortage_qty) × (log.production_order_id ≡ order) × (log.part_id ≡ part)

pub record MrpStore {W : Type 0} (D : MrpDeps W) : Type 0 where
  pub shortage_of : ℕ → ℕ → W → Option ℤ
  pub logs_read :
      (order part : ℕ) (w : W) (logs : List ShortageLog)
      → (D.get_shortages order w).0 ≡ ok logs
      → Matches order part (shortage_of order part w) (existing_log part none logs)
  pub logs_keep :
      (order o p : ℕ) (w : W) → shortage_of o p (D.get_shortages order w).1 ≡ shortage_of o p w
  pub uuid_keeps : (o p : ℕ) (w : W) → shortage_of o p (D.new_uuid w).1 ≡ shortage_of o p w
  pub publish_keeps :
      (sku : String) (qty : ℤ) (order o p : ℕ) (w : W)
      → shortage_of o p (D.publish_deficit sku qty order w).1 ≡ shortage_of o p w
  -- A log that is created with success sets the quantity of its order and part, and no write
  -- changes other parts.
  pub create_sets :
      (log : ShortageLog) (w : W)
      → (D.create_shortage_log log w).0 ≡ ok tt
      → shortage_of log.production_order_id log.part_id (D.create_shortage_log log w).1
        ≡ some log.shortage_qty
  pub create_others :
      (log : ShortageLog) (o p : ℕ) (w : W)
      → log.part_id ≢ p
      → shortage_of o p (D.create_shortage_log log w).1 ≡ shortage_of o p w
  -- An update sets the quantity where there is a shortage to update.
  pub update_sets :
      (log : ShortageLog) (old : ℤ) (w : W)
      → shortage_of log.production_order_id log.part_id w ≡ some old
      → (D.update_shortage_log log w).0 ≡ ok tt
      → shortage_of log.production_order_id log.part_id (D.update_shortage_log log w).1
        ≡ some log.shortage_qty
  pub update_others :
      (log : ShortageLog) (o p : ℕ) (w : W)
      → log.part_id ≢ p
      → shortage_of o p (D.update_shortage_log log w).1 ≡ shortage_of o p w
  pub delete_sets :
      (order part : ℕ) (w : W)
      → (D.delete_shortage_log order part w).0 ≡ ok tt
      → shortage_of order part (D.delete_shortage_log order part w).1 ≡ none
  pub delete_others :
      (order part o p : ℕ) (w : W)
      → part ≢ p
      → shortage_of o p (D.delete_shortage_log order part w).1 ≡ shortage_of o p w
