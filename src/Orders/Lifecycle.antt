-- ===== src/Orders/Lifecycle.antt =====
-- What a call of a handler does to the table of orders: nothing, a new draft, or one legal move.
pub mod Work
pub mod Delivery
pub mod Draft
pub mod Completion
use ustabobo_bot.Base.{ℕ, ◌≡◌, ◌⊎◌, Bool, true, false, some, ◌∷◌, is_some}
use ustabobo_bot.Base.Table.{lookup, modify}
use ustabobo_bot.Schema.{
  World, Env, Order, OrderStatus, draft, accepted, received_by_driver,
  waiting_master_delivery_confirmation, delivered_by_driver, waiting_customer_confirmation,
  completed,
}
use ustabobo_bot.OrderStatusMachine.{can_transition, same_status}
use ustabobo_bot.Orders.Draft.{CreateOrderDto, draft_order}

-- what no handler of `OrdersService` changes in an order
pub record SameJob (o p : Order) : Type 0 where
  pub master_kept : p.master_id ≡ o.master_id
  pub organization_kept : p.organization_id ≡ o.organization_id
  pub vehicle_kept : p.vehicle_id ≡ o.vehicle_id
  pub delivery_kept : p.delivery_needed ≡ o.delivery_needed
  pub creation_kept : p.created_at ≡ o.created_at

-- A move is one that the table allows, `driverDelivered` of an order that the driver took (which
-- the table does not have), or a new total of a draft.
abbrev pub StepsTo : OrderStatus → OrderStatus → Type 0
StepsTo s t =
    (can_transition s t ≡ true)
    ⊎ ((s ≡ received_by_driver) × (t ≡ delivered_by_driver))
    ⊎ ((s ≡ draft) × (t ≡ draft))

abbrev pub needs_driver : OrderStatus → Bool
needs_driver received_by_driver = true
needs_driver waiting_master_delivery_confirmation = true
needs_driver delivered_by_driver = true
needs_driver _ = false

-- what holds of a stored order between two calls
pub record IsSound (o : Order) : Type 0 where
  pub token_waits : is_some o.confirm_token ≡ same_status o.status waiting_customer_confirmation
  pub end_dated : is_some o.completed_at ≡ same_status o.status completed
  pub driver_known : needs_driver o.status ≡ true → is_some o.driver_id ≡ true
  pub not_accepted : same_status o.status accepted ≡ false

pub record IsMove (o p : Order) : Type 0 where
  pub same_job : SameJob o p
  pub steps : StepsTo o.status p.status
  pub stays_sound : IsSound o → IsSound p

-- `k` is the id that a new order gets.
pub data Change (k : ℕ) (w w' : World) : Type 0 where
  same : w'.orders ≡ w.orders → Change k w w'
  opened :
      (env : Env) (m : ℕ) (dto : CreateOrderDto)
      → w'.orders ≡ (k, draft_order env m dto) ∷ w.orders
      → Change k w w'
  moved :
      (id : ℕ) (o : Order) (f : Order → Order)
      → lookup id w.orders ≡ some o
      → IsMove o (f o)
      → w'.orders ≡ modify id f w.orders
      → Change k w w'
