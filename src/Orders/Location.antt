-- ===== src/Orders/Location.antt =====
-- src/orders/orders.service.ts: what a master does to a draft: setLocation, addLocationToDraft
-- and addManualProductToOrder.
use ustabobo_bot.Base.{
  ℕ, max, Bool, not, ◌&&◌, Option, none, some, [], ◌∷◌, ltb, ◌==◌, if◌then◌else◌, holds, length,
}
use ustabobo_bot.Base.Int.{ℤ, pos}
use ustabobo_bot.Base.Table.{Table, find_first}
use ustabobo_bot.Base.Exec.{
  Exec, bad_request, forbidden, not_yours, not_draft, empty_name, bad_price, pure, gets, put,
  or_throw, transaction, throw_if, ◌>>=◌, ◌>>◌,
}
use ustabobo_bot.Schema.{
  OrderItem, World, Env, Text, Order, User, draft, waiting_confirmation, location_submitted,
  manual_product,
}
use ustabobo_bot.Prisma.{update_order, create_event, updated}
use ustabobo_bot.OrderStatusMachine.{same_status}
use ustabobo_bot.PriceCalculator.{calculate_order_total}
use ustabobo_bot.Text.{trim, slice_to}
use ustabobo_bot.Orders.{find_order, own_order, assert_transition, totals_of}

unfoldable pub set_location : ℕ → ℕ → ℤ → ℤ → Exec World Order
set_location id master_id lat lng = do
  order ← own_order id master_id
  assert_transition order.status waiting_confirmation
  items ← gets (totals_of id)
  let total = calculate_order_total items order.delivery_needed
  transaction (do
    updated ← update_order id (λ o. record o {
      lat = some lat;
      lng = some lng;
      total_amount = total;
      status = waiting_confirmation;
    })
    create_event id (some master_id) (location_submitted lat lng total)
    pure updated)

abbrev pub later : ℕ × Order → Option (ℕ × Order) → Option (ℕ × Order)
later (k, o) none = some (k, o)
later (k, o) (some (j, p)) = if ltb o.created_at p.created_at then some (j, p) else some (k, o)

-- `order.findFirst({ where, orderBy: { created_at: 'desc' } })`
unfoldable pub latest : (Order → Bool) → Table Order → Option (ℕ × Order)
latest p [] = none
latest p ((k, o) ∷ t) = let rest = latest p t in if p o then later (k, o) rest else rest

abbrev pub is_draft_of : ℕ → Order → Bool
is_draft_of master_id o = o.master_id == master_id && same_status o.status draft

abbrev pub has_tg : ℕ → User → Bool
has_tg tg u = holds tg u.tg_id && u.is_active

-- the newest draft of the user
abbrev pub draft_of : Option (ℕ × User) → World → Option (ℕ × Order)
draft_of none w = none
draft_of (some (user, _)) w = latest (is_draft_of user) w.orders

-- `null` where the user is unknown or has no draft
abbrev pub locate : Option (ℕ × Order) → ℤ → ℤ → Exec World (Option Order)
locate none lat lng = pure none
locate (some (id, o)) lat lng = do
  updated ← set_location id o.master_id lat lng
  pure (some updated)

-- The call passes the user's id on, which is the draft's `master_id` by the query.
unfoldable pub add_location_to_draft : ℕ → ℤ → ℤ → Exec World (Option Order)
add_location_to_draft telegram_id lat lng = do
  user ← gets (λ w. find_first (has_tg telegram_id) w.users)
  found ← gets (draft_of user)
  locate found lat lng

-- `Number.isFinite(price) && price >= 0`; the price is `none` where it is not a finite number
abbrev pub valid_price : Option ℤ → Option ℕ
valid_price (some (pos n)) = some n
valid_price _ = none

-- `Math.max(1, Math.floor(Number(quantity) || 1))` of a whole number
abbrev pub manual_quantity : Option ℤ → ℕ
manual_quantity (some (pos n)) = max 1 n
manual_quantity _ = 1

-- `orderItem.create`
abbrev pub with_item : ℕ → OrderItem → World → World
with_item k i w = record w { order_items = (k, i) ∷ w.order_items }

abbrev pub typed_item : ℕ → Text → ℕ → Option ℤ → OrderItem
typed_item id name price quantity = record {
  order_id = id;
  item_type = manual_product;
  product_id = none;
  service_id = none;
  item_name = some (slice_to 255 name);
  quantity = manual_quantity quantity;
  price_at_time = price;
}

unfoldable pub add_manual_product : Env → ℕ → ℕ → Text → Option ℤ → Option ℤ → Exec World Order
add_manual_product env id master_id raw_name raw_price raw_quantity = do
  order ← find_order id
  throw_if (not (same_status order.status draft)) (bad_request not_draft)
  throw_if (not (order.master_id == master_id)) (forbidden not_yours)
  let name = trim raw_name
  throw_if (length name == 0) (bad_request empty_name)
  price ← or_throw (valid_price raw_price) (bad_request bad_price)
  put (with_item (env.uuid 0) (typed_item id name price raw_quantity))
  items ← gets (totals_of id)
  let total = calculate_order_total items order.delivery_needed
  update_order id (λ o. record o { total_amount = total })
