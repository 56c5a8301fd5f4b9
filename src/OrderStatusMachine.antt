-- ===== src/OrderStatusMachine.antt =====
-- src/orders/order-status-machine.ts
pub mod Edges
use ustabobo_bot.Base.{Bool, true, false, List, [], ◌∷◌, ◌||◌}
use ustabobo_bot.Schema.{
  OrderStatus, draft, waiting_confirmation, waiting_master_work_start, broadcasted, accepted,
  received_by_driver, waiting_master_delivery_confirmation, delivered_by_driver, received_by_master,
  working, waiting_customer_confirmation, completed, cancelled,
}

-- the position of a status in the enumeration, for `===`
abbrev pub same_status : OrderStatus → OrderStatus → Bool
same_status draft draft = true
same_status waiting_confirmation waiting_confirmation = true
same_status waiting_master_work_start waiting_master_work_start = true
same_status broadcasted broadcasted = true
same_status accepted accepted = true
same_status received_by_driver received_by_driver = true
same_status waiting_master_delivery_confirmation waiting_master_delivery_confirmation = true
same_status delivered_by_driver delivered_by_driver = true
same_status received_by_master received_by_master = true
same_status working working = true
same_status waiting_customer_confirmation waiting_customer_confirmation = true
same_status completed completed = true
same_status cancelled cancelled = true
same_status _ _ = false

-- `ALLOWED_TRANSITIONS`
abbrev pub allowed_transitions : OrderStatus → List OrderStatus
allowed_transitions draft =
    waiting_confirmation ∷ broadcasted ∷ working ∷ waiting_master_work_start ∷ cancelled ∷ []
allowed_transitions waiting_confirmation =
    broadcasted ∷ working ∷ waiting_master_work_start ∷ cancelled ∷ []
allowed_transitions waiting_master_work_start = working ∷ []
allowed_transitions broadcasted = received_by_driver ∷ []
allowed_transitions received_by_driver = waiting_master_delivery_confirmation ∷ []
allowed_transitions waiting_master_delivery_confirmation = working ∷ received_by_driver ∷ []
allowed_transitions accepted = delivered_by_driver ∷ []
allowed_transitions delivered_by_driver = received_by_master ∷ working ∷ received_by_driver ∷ []
allowed_transitions received_by_master = working ∷ []
allowed_transitions working = waiting_customer_confirmation ∷ []
allowed_transitions waiting_customer_confirmation = completed ∷ []
allowed_transitions completed = []
allowed_transitions cancelled = []

abbrev pub includes_status : List OrderStatus → OrderStatus → Bool
includes_status [] s = false
includes_status (x ∷ xs) s = same_status x s || includes_status xs s

-- The table has an entry for every status, so `if (!allowed)` never fires.
unfoldable pub can_transition : OrderStatus → OrderStatus → Bool
can_transition from to = includes_status (allowed_transitions from) to
