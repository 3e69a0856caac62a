-- ===== src/Scm/PurchaseOrder/Transition.antt =====
-- scm/internal/service/po_service.go, `validTransition`: the statuses that an order can reach
-- through a chain of valid transitions.
use zeus_be.Prelude.{◌≡◌, refl, ◌⊎◌, inl, inr, true, arith, ◌≢◌, subst}
use zeus_be.Scm.PurchaseOrder.{PoStatus, draft, received, void, valid_transition}

pub data Reach (s : PoStatus) : PoStatus → Type 0 where
  here : Reach s s
  next : {t u : PoStatus} → Reach s t → valid_transition t u ≡ true → Reach s u

pub Reach-trans : {s t u : PoStatus} → Reach s t → Reach t u → Reach s u
Reach-trans r here = r
Reach-trans r (next r' h) = next (Reach-trans r r') h

from_void : (t : PoStatus) → valid_transition void t ≡ true → t ≡ void
unfolding valid_transition
from_void t h = ground arith

from_received : (t : PoStatus) → valid_transition received t ≡ true → t ≡ void
unfolding valid_transition
from_received t h = ground arith

to_draft : (s : PoStatus) → valid_transition s draft ≢ true
unfolding valid_transition
to_draft s h = ground arith

-- An order that was received can only be received or void from then on, and no chain of
-- transitions leads back to Draft.
pub Reach-received : {t : PoStatus} → Reach received t → (t ≡ received) ⊎ (t ≡ void)
Reach-received here = inl refl
Reach-received (next {t} {u} r h) = elim (Reach-received r) [
  | inl e ↦ inr (from_received u (subst (λ s. valid_transition s u ≡ true) e h))
  | inr e ↦ inr (from_void u (subst (λ s. valid_transition s u ≡ true) e h))
]
