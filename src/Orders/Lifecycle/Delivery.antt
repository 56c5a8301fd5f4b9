-- ===== src/Orders/Lifecycle/Delivery.antt =====
-- The handlers of a delivery as changes of the orders.
use ustabobo_bot.Base.{
  ℕ, ◌≡◌, inl, inr, Bool, false, ◌&&◌, ◌||◌, some, ◌==◌, if◌then◌else◌, holds, arith, Bool-cases,
  Option-cases,
}
use ustabobo_bot.Base.Table.{lookup, modify}
use ustabobo_bot.Base.Exec.{ok}
use ustabobo_bot.Base.Exec.{Result-cases}
use ustabobo_bot.Schema.{
  World, Env, Order, broadcasted, accepted, received_by_driver,
  waiting_master_delivery_confirmation, delivered_by_driver, working,
}
use ustabobo_bot.OrderStatusMachine.{can_transition, same_status}
use ustabobo_bot.Orders.Delivery.{
  driver_accept, driver_finish, driver_delivered_order, master_confirm_delivery, record_delivery,
  credit_delivery,
}
use ustabobo_bot.Orders.Lifecycle.{Change, same, moved}

pub driver_accept-Change : {k : ℕ} (id d : ℕ) (w : World) → Change k w (driver_accept id d w).1
unfolding driver_accept
driver_accept-Change id d w = elim (Option-cases (lookup id w.orders)) [
  | inl absent ↦ same (ground arith)
  | inr (o, found) ↦ elim (Bool-cases (same_status o.status broadcasted)) [
    | inl open_order ↦
        moved id o (λ o'. record o' { driver_id = some d; status = received_by_driver }) found
          (unfold can_transition in ground arith) (ground arith)
    | inr refused ↦ same (ground arith)
  ]
]

pub driver_finish-Change : {k : ℕ} (id d : ℕ) (w : World) → Change k w (driver_finish id d w).1
unfolding driver_finish
driver_finish-Change id d w = elim (Option-cases (lookup id w.orders)) [
  | inl absent ↦ same (ground arith)
  | inr (o, found) ↦
      elim (Bool-cases
        (holds d o.driver_id && can_transition o.status waiting_master_delivery_confirmation)) [
          | inl allowed ↦
              moved id o (λ o'. record o' { status = waiting_master_delivery_confirmation }) found
                (unfold can_transition in ground arith) (ground arith)
          | inr refused ↦ same (ground arith)
        ]
]

pub driver_delivered_order-Change :
    {k : ℕ} (id d : ℕ) (w : World)
    → ((o : Order) → lookup id w.orders ≡ some o → same_status o.status accepted ≡ false)
    → Change k w (driver_delivered_order id d w).1
unfolding driver_delivered_order
driver_delivered_order-Change id d w sound = elim (Option-cases (lookup id w.orders)) [
  | inl absent ↦ same (ground arith)
  | inr (o, found) ↦
      elim (Bool-cases (holds d o.driver_id && same_status o.status received_by_driver)) [
        | inl allowed ↦
            moved id o (λ o'. record o' { status = delivered_by_driver }) found
              (unfold can_transition in ground arith) (ground arith)
        | inr refused ↦ same (ground (arith, sound o found))
      ]
]

pub record_delivery-orders :
    (env : Env) (id m : ℕ) (o : Order) (confirmed : Bool) (w : World)
    → (record_delivery env id m o confirmed w).0 ≡ ok tt
    → (record_delivery env id m o confirmed w).1.orders
      ≡ modify id
          (λ o'. record o' { status = if confirmed then working else received_by_driver })
          w.orders
unfolding record_delivery credit_delivery
record_delivery-orders env id m o confirmed w h = ground arith

pub master_confirm_delivery-Change :
    {k : ℕ} (env : Env) (id m : ℕ) (confirmed : Bool) (w : World)
    → Change k w (master_confirm_delivery env id m confirmed w).1
unfolding master_confirm_delivery
master_confirm_delivery-Change env id m confirmed w = elim (Option-cases (lookup id w.orders)) [
  | inl absent ↦ same (ground arith)
  | inr (o, found) ↦
      elim (Bool-cases (
        o.master_id == m
        && (same_status o.status waiting_master_delivery_confirmation
            || same_status o.status delivered_by_driver))) [
              | inl allowed ↦ elim (Result-cases (record_delivery env id m o confirmed w).0) [
                | inl (_, done) ↦
                    moved id o
                      (λ o'. record o' {
                        status = if confirmed then working else received_by_driver;
                      })
                      found (unfold can_transition in ground arith)
                      (ground (arith, record_delivery-orders env id m o confirmed w done))
                | inr (_, failed) ↦ same (ground arith)
              ]
              | inr refused ↦ same (ground arith)
            ]
]
