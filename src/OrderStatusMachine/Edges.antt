-- ===== src/OrderStatusMachine/Edges.antt =====
-- The transition diagram as a relation, and what can be reached in it.
use ustabobo_bot.Base.{true, false, ◌≡◌, refl, ◌≢◌, ◌↔◌, arith}
use ustabobo_bot.Schema.{
  OrderStatus, draft, waiting_confirmation, waiting_master_work_start, broadcasted, accepted,
  received_by_driver, waiting_master_delivery_confirmation, delivered_by_driver, received_by_master,
  working, waiting_customer_confirmation, completed, cancelled,
}
use ustabobo_bot.OrderStatusMachine.{can_transition}

-- a path along transitions that the table allows
infix 40 ◌⟶*◌
pub data ◌⟶*◌ : OrderStatus → OrderStatus → Type 0 where
  here : {s : OrderStatus} → s ⟶* s
  next : {s t u : OrderStatus} → s ⟶* t → can_transition t u ≡ true → s ⟶* u

-- the statuses that some transition from `draft` leads to
abbrev pub IsLive : OrderStatus → Type 0
IsLive accepted = ⊥
IsLive delivered_by_driver = ⊥
IsLive received_by_master = ⊥
IsLive _ = Unit

IsLive-step : (t u : OrderStatus) → IsLive t → can_transition t u ≡ true → IsLive u
unfolding can_transition
IsLive-step t u h e = ground arith

reach-IsLive : {s u : OrderStatus} → s ⟶* u → IsLive s → IsLive u
reach-IsLive here h = h
reach-IsLive (next r e) h = IsLive-step _ _ (reach-IsLive r h) e

-- the long way round, through a delivery
delivery_path : draft ⟶* waiting_master_delivery_confirmation
unfolding can_transition
delivery_path =
    next {t = received_by_driver} (next {t = broadcasted} (next {t = draft} here refl) refl) refl

IsLive-reach : (s : OrderStatus) → IsLive s → draft ⟶* s
unfolding can_transition
IsLive-reach draft h = here
IsLive-reach waiting_confirmation h = next {t = draft} here refl
IsLive-reach waiting_master_work_start h = next {t = draft} here refl
IsLive-reach broadcasted h = next {t = draft} here refl
IsLive-reach accepted h = elim h [ ]
IsLive-reach received_by_driver h = next {t = broadcasted} (next {t = draft} here refl) refl
IsLive-reach waiting_master_delivery_confirmation h = delivery_path
IsLive-reach delivered_by_driver h = elim h [ ]
IsLive-reach received_by_master h = elim h [ ]
IsLive-reach working h = next {t = draft} here refl
IsLive-reach waiting_customer_confirmation h = next {t = working} (next {t = draft} here refl) refl
IsLive-reach completed h =
    next {t = waiting_customer_confirmation} (next {t = working} (next {t = draft} here refl) refl)
      refl
IsLive-reach cancelled h = next {t = draft} here refl

-- From `draft` the table leads to every status but `accepted`, `delivered_by_driver` and
-- `received_by_master`, and to none of those three.
pub draft-reach : (s : OrderStatus) → (draft ⟶* s) ↔ IsLive s
draft-reach s = (λ r. reach-IsLive r tt, IsLive-reach s)

-- the statuses that an order does not leave
abbrev pub IsFinal : OrderStatus → Type 0
IsFinal completed = Unit
IsFinal cancelled = Unit
IsFinal _ = ⊥

pub IsFinal-stuck : (s t : OrderStatus) → IsFinal s → can_transition s t ≡ false
unfolding can_transition
IsFinal-stuck s t h = ground arith

-- with no successor at all a status is final: otherwise one that it has is named
stuck-IsFinal : (s : OrderStatus) → ((t : OrderStatus) → can_transition s t ≡ false) → IsFinal s
unfolding can_transition
stuck-IsFinal draft h = cc (h cancelled)
stuck-IsFinal waiting_confirmation h = cc (h cancelled)
stuck-IsFinal waiting_master_work_start h = cc (h working)
stuck-IsFinal broadcasted h = cc (h received_by_driver)
stuck-IsFinal accepted h = cc (h delivered_by_driver)
stuck-IsFinal received_by_driver h = cc (h waiting_master_delivery_confirmation)
stuck-IsFinal waiting_master_delivery_confirmation h = cc (h working)
stuck-IsFinal delivered_by_driver h = cc (h working)
stuck-IsFinal received_by_master h = cc (h working)
stuck-IsFinal working h = cc (h waiting_customer_confirmation)
stuck-IsFinal waiting_customer_confirmation h = cc (h completed)
stuck-IsFinal completed h = tt
stuck-IsFinal cancelled h = tt

-- A status has no allowed successor exactly if it is `completed` or `cancelled`.
pub IsFinal-iff_stuck :
    (s : OrderStatus) → IsFinal s ↔ ((t : OrderStatus) → can_transition s t ≡ false)
IsFinal-iff_stuck s = (λ h t. IsFinal-stuck s t h, stuck-IsFinal s)

from_working : {s : OrderStatus} → s ⟶* working → s ⟶* completed
unfolding can_transition
from_working r = next {t = waiting_customer_confirmation} (next {t = working} r refl) refl

-- Every status but `cancelled` leads to `completed`.
pub completed-reach : (s : OrderStatus) → s ≢ cancelled → s ⟶* completed
unfolding can_transition
completed-reach draft h = from_working (next here refl)
completed-reach waiting_confirmation h = from_working (next here refl)
completed-reach waiting_master_work_start h = from_working (next here refl)
completed-reach broadcasted h = from_working (
    next {t = waiting_master_delivery_confirmation}
      (next {t = received_by_driver} (next here refl) refl) refl)
completed-reach accepted h = from_working (next {t = delivered_by_driver} (next here refl) refl)
completed-reach received_by_driver h =
    from_working (next {t = waiting_master_delivery_confirmation} (next here refl) refl)
completed-reach waiting_master_delivery_confirmation h = from_working (next here refl)
completed-reach delivered_by_driver h = from_working (next here refl)
completed-reach received_by_master h = from_working (next here refl)
completed-reach working h = from_working here
completed-reach waiting_customer_confirmation h = next here refl
completed-reach completed h = here
completed-reach cancelled h = absurd (h refl)
