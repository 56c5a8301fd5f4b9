-- ===== src/Orders.antt =====
-- src/orders/orders.service.ts: `OrdersService`. Each handler is a computation on the `World`; the
-- master, driver or customer who calls it is an argument. This file has the steps that the
-- handlers begin with; the handlers stand in the children, by the stage of an order.
pub mod Draft
pub mod Location
pub mod Work
pub mod Delivery
pub mod Figures
pub mod Completion
pub mod Totals
pub mod Lifecycle
pub mod Requests
pub mod Queries
pub mod Ledger
use ustabobo_bot.Base.{ℕ, not, Option, List, map, ◌==◌}
use ustabobo_bot.Base.Table.{lookup}
use ustabobo_bot.Base.Exec.{
  Exec, bad_request, not_found, forbidden, order_missing, not_yours, illegal_transition, pure, gets,
  or_throw, throw_if, ◌>>=◌, ◌>>◌,
}
use ustabobo_bot.Schema.{World, Order, OrderStatus}
use ustabobo_bot.Prisma.{items_of, tg_of}
use ustabobo_bot.OrderStatusMachine.{can_transition}
use ustabobo_bot.PriceCalculator.{for_total, OrderItemForTotal}

-- `order.findUnique({ where: { id } })`, and the exception where there is none
abbrev pub find_order : ℕ → Exec World Order
find_order id = do order ← gets (λ w. lookup id w.orders); or_throw order (not_found order_missing)

-- what a handler returns at its end: the order read again, or `null`
abbrev pub read_order : ℕ → Exec World (Option Order)
read_order id = gets (λ w. lookup id w.orders)

-- `find_order`, and the order must be the caller's
abbrev pub own_order : ℕ → ℕ → Exec World Order
own_order id master_id = do
  order ← find_order id
  throw_if (not (order.master_id == master_id)) (forbidden not_yours)
  pure order

-- `assertTransition` inside the `try` that turns its error into a bad request
abbrev pub assert_transition : OrderStatus → OrderStatus → Exec World (Unit {0})
assert_transition from to = throw_if (not (can_transition from to)) (bad_request illegal_transition)

-- the user's `tg_id`, if the user is there and it is set
abbrev pub find_tg : ℕ → Exec World (Option ℕ)
find_tg id = gets (λ w. tg_of (lookup id w.users))

-- the items of an order, as `calculateOrderTotal` reads them
unfoldable pub totals_of : ℕ → World → List OrderItemForTotal
unfolding items_of
totals_of id w = map (λ (_, i). for_total i) (items_of id w)
