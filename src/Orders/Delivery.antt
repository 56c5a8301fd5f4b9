-- ===== src/Orders/Delivery.antt =====
-- src/orders/orders.service.ts: the handlers of a delivery: driverAccept, driverFinish,
-- driverDelivered, masterConfirmDelivery.
use ustabobo_bot.Base.{
  ℕ, Bool, true, false, not, ◌||◌, Option, none, some, if◌then◌else◌, is_some, holds,
}
use ustabobo_bot.Base.Table.{lookup, modify}
use ustabobo_bot.Base.Exec.{
  Exec, bad_request, forbidden, conflict, not_yours, not_awaiting_delivery, already_taken,
  not_deliverable, pure, gets, put, transaction, throw_if, ◌>>=◌, ◌>>◌,
}
use ustabobo_bot.Schema.{
  World, Env, Order, Transaction, broadcasted, accepted, received_by_driver,
  waiting_master_delivery_confirmation, delivered_by_driver, working, driver_finished,
  driver_delivered, master_confirmed_delivery, master_rejected_delivery, driver_accepted,
  delivery_fee, can_start_work, delivery_request, delivery_rejected,
}
use ustabobo_bot.Prisma.{
  increment, update_order, update_user, create_transaction, create_event, notify_user, tg_of,
  find_entry, updated,
}
use ustabobo_bot.OrderStatusMachine.{same_status}
use ustabobo_bot.PriceCalculator.{delivery_price}
use ustabobo_bot.Orders.{find_order, own_order, assert_transition, find_tg, read_order}

-- the order must be one that this driver accepted
abbrev pub driver_order : ℕ → ℕ → Exec World Order
driver_order id driver_id = do
  order ← find_order id
  throw_if (not (holds driver_id order.driver_id)) (forbidden not_yours)
  pure order

-- `UPDATE "Order" … WHERE id = … AND status = 'broadcasted' RETURNING id`
abbrev pub is_broadcasted : Option Order → Bool
is_broadcasted none = false
is_broadcasted (some o) = same_status o.status broadcasted

unfoldable pub driver_accept : ℕ → ℕ → Exec World (Option Order)
driver_accept id driver_id = do
  taken ← gets (λ w. is_broadcasted (lookup id w.orders))
  throw_if (not taken) (conflict already_taken)
  put (λ w. record w {
    orders =
        modify id (λ o. record o { driver_id = some driver_id; status = received_by_driver })
          w.orders;
  })
  create_event id (some driver_id) (driver_accepted driver_id)
  read_order id

unfoldable pub driver_finish : ℕ → ℕ → Exec World (Option Order)
driver_finish id driver_id = do
  order ← driver_order id driver_id
  assert_transition order.status waiting_master_delivery_confirmation
  transaction (do
    update_order id (λ o. record o { status = waiting_master_delivery_confirmation })
    create_event id (some driver_id) driver_finished)
  tg ← find_tg order.master_id
  notify_user tg (λ chat. delivery_request chat id)
  read_order id

unfoldable pub driver_delivered_order : ℕ → ℕ → Exec World Order
driver_delivered_order id driver_id = do
  order ← driver_order id driver_id
  throw_if (not (same_status order.status accepted || same_status order.status received_by_driver))
      (bad_request not_deliverable)
  updated ← transaction (do
    updated ← update_order id (λ o. record o { status = delivered_by_driver })
    create_event id (some driver_id) driver_delivered
    pure updated)
  tg ← find_tg order.master_id
  notify_user tg (λ chat. delivery_request chat id)
  pure updated

-- the transaction row of a credited delivery
abbrev pub delivery_entry : ℕ → ℕ → Transaction
delivery_entry id driver_id = record {
  order_id = id;
  user_id = driver_id;
  amount = delivery_price;
  type = delivery_fee;
}

-- The fee is credited unless the order already has such a row for this driver.
unfoldable pub credit_delivery : ℕ → ℕ → ℕ → Exec World (Unit {0})
unfolding find_entry
credit_delivery row id driver_id = do
  existing ← gets (find_entry (delivery_entry id driver_id))
  if is_some existing then pure tt else (do
    create_transaction row (delivery_entry id driver_id)
    update_user driver_id (increment delivery_price)
    pure tt)

abbrev pub credit_driver : ℕ → ℕ → Bool → Option ℕ → Exec World (Unit {0})
credit_driver row id false _ = pure tt
credit_driver row id true none = pure tt
credit_driver row id true (some driver_id) = credit_delivery row id driver_id

-- the driver of the order, as `include: { driver: … }` reads it
abbrev pub tg_of_driver : Option ℕ → World → Option ℕ
tg_of_driver none w = none
tg_of_driver (some d) w = tg_of (lookup d w.users)

-- the body of `$transaction`
unfoldable pub record_delivery : Env → ℕ → ℕ → Order → Bool → Exec World (Unit {0})
record_delivery env id master_id order confirmed = do
  update_order id (λ o. record o { status = if confirmed then working else received_by_driver })
  create_event id (some master_id)
      (if confirmed then master_confirmed_delivery else master_rejected_delivery)
  credit_driver (env.uuid 0) id confirmed order.driver_id

unfoldable pub master_confirm_delivery : Env → ℕ → ℕ → Bool → Exec World (Option Order)
master_confirm_delivery env id master_id confirmed = do
  order ← own_order id master_id
  throw_if
      (not (
        same_status order.status waiting_master_delivery_confirmation
        || same_status order.status delivered_by_driver))
      (bad_request not_awaiting_delivery)
  transaction (record_delivery env id master_id order confirmed)
  master_tg ← find_tg order.master_id
  driver_tg ← gets (tg_of_driver order.driver_id)
  if confirmed
      then notify_user master_tg (λ chat. can_start_work chat id)
      else notify_user driver_tg (λ chat. delivery_rejected chat)
  read_order id
