-- ===== src/Orders/Completion.antt =====
-- src/orders/orders.service.ts: the customer's confirmation, getConfirmData and customerConfirm,
-- with the stock alert that follows it (src/products/stock-alert.service.ts).
pub mod Outcome
pub mod Stock
pub mod Effects
pub mod Progress
use ustabobo_bot.Base.{
  ℕ, ◌+◌, ◌-◌, Bool, true, false, ◌&&◌, ◌||◌, Option, none, some, List, [], ◌∷◌, ◌++◌, map, ltb,
  leb, ◌==◌, if◌then◌else◌, holds, length, includes,
}
use ustabobo_bot.Base.Table.{Table, lookup, find_first}
use ustabobo_bot.Base.Exec.{
  Exec, bad_request, not_found, record_missing, bad_token, product_missing, out_of_stock, pure,
  gets, put, or_throw, transaction, throw_if, ◌>>=◌, ◌>>◌,
}
use ustabobo_bot.Schema.{
  World, Env, Text, Order, User, Product, Transaction, waiting_customer_confirmation, completed,
  Settlement, customer_completed, master_fee, driver_fee, Role, boss, Notice, stock_alert,
}
use ustabobo_bot.Prisma.{
  increment, update_order, update_user, update_organization, update_product, create_transaction,
  create_event, items_of,
}
use ustabobo_bot.OrderStatusMachine.{same_status}
use ustabobo_bot.Orders.{read_order}
use ustabobo_bot.Orders.Figures.{read_settlement}

-- `{ confirm_token: token, status: waiting_customer_confirmation }`
abbrev pub awaits : ℕ → Order → Bool
awaits token o = holds token o.confirm_token && same_status o.status waiting_customer_confirmation

unfoldable pub find_by_token : ℕ → Exec World (ℕ × Order)
find_by_token token = do
  found ← gets (λ w. find_first (awaits token) w.orders)
  or_throw found (not_found bad_token)

abbrev pub master_entry : ℕ → ℕ → ℕ → Transaction
master_entry id user amount = record {
  order_id = id;
  user_id = user;
  amount = amount;
  type = master_fee;
}

abbrev pub driver_entry : ℕ → ℕ → ℕ → Transaction
driver_entry id user amount = record {
  order_id = id;
  user_id = user;
  amount = amount;
  type = driver_fee;
}

-- the driver's row is written, and the balance raised, only where the share is positive
abbrev pub record_driver_fee : ℕ → ℕ → Option ℕ → ℕ → Exec World (Unit {0})
record_driver_fee row id none amount = pure tt
record_driver_fee row id (some d) amount =
    if ltb 0 amount then create_transaction row (driver_entry id d amount) else pure tt

abbrev pub pay_driver : Option ℕ → ℕ → Exec World (Unit {0})
pay_driver none amount = pure tt
pay_driver (some d) amount =
    if ltb 0 amount then (do update_user d (increment amount); pure tt) else pure tt

abbrev pub charge_organization : Option ℕ → ℕ → Exec World (Unit {0})
charge_organization none total = pure tt
charge_organization (some org) total = do
  update_organization org (λ o. record o { balance_due = o.balance_due + total })
  pure tt

-- one round of the stock loop
unfoldable pub take_stock : ℕ → ℕ → Exec World (Unit {0})
take_stock id quantity = do
  found ← gets (λ w. lookup id w.products)
  row ← or_throw found (bad_request product_missing)
  throw_if (ltb row.stock_count quantity) (bad_request out_of_stock)
  update_product id (λ p. record p { stock_count = p.stock_count - quantity })
  pure tt

unfoldable pub take_all : List (ℕ × ℕ) → Exec World (Unit {0})
take_all [] = pure tt
take_all ((id, quantity) ∷ rest) = do take_stock id quantity; take_all rest

abbrev pub complete : ℕ → Order → Order
complete now o = record o { status = completed; completed_at = some now; confirm_token = none }

-- steps (c) to (e) of the transaction: the rows of the fees, the balances, the organization
unfoldable pub post_fees : Env → ℕ → ℕ → Option ℕ → Option ℕ → Settlement → Exec World (Unit {0})
post_fees env id master_id driver_id organization_id s = do
  create_transaction (env.uuid 0) (master_entry id master_id s.usta_haqi)
  record_driver_fee (env.uuid 1) id driver_id s.kuryer_haqi
  update_user master_id (increment s.usta_haqi)
  pay_driver driver_id s.kuryer_haqi
  charge_organization organization_id s.total_amount

-- the body of `$transaction`, from the order as it was read before
unfoldable pub settle_order : Env → ℕ → Order → List (ℕ × ℕ) → Settlement → Exec World (Unit {0})
settle_order env id o lines s = do
  post_fees env id o.master_id o.driver_id o.organization_id s
  take_all lines
  update_order id (complete env.now)
  create_event id none (customer_completed s)

-- `stockAlertService.checkAndAlert`: the products that ran low, to every active boss
abbrev pub is_low : Product → Bool
is_low p = leb p.stock_count p.min_limit && ltb 0 p.stock_count

unfoldable pub low_stock : List ℕ → Table Product → List ℕ
low_stock ids [] = []
low_stock ids ((k, p) ∷ t) =
    let rest = low_stock ids t in if includes k ids && is_low p then k ∷ rest else rest

abbrev pub is_boss : Role → Bool
is_boss boss = true
is_boss _ = false

abbrev pub alert_to : Option ℕ → List ℕ → List Notice → List Notice
alert_to none low rest = rest
alert_to (some chat) low rest = stock_alert chat low ∷ rest

unfoldable pub alerts : List ℕ → Table User → List Notice
alerts low [] = []
alerts low ((_, u) ∷ t) =
    let rest = alerts low t in
    if is_boss u.role && u.is_active then alert_to u.tg_id low rest else rest

unfoldable pub check_and_alert : List ℕ → Exec World (Unit {0})
unfolding low_stock alerts
check_and_alert ids = put (λ w.
    let low = low_stock ids w.products in
    if length ids == 0 || length low == 0
    then w
    else record w { outbox = alerts low w.users ++ w.outbox })

unfoldable pub customer_confirm : Env → ℕ → Exec World (Option Order)
customer_confirm env token = do
  (id, o) ← find_by_token token
  (lines, s) ← read_settlement id o
  transaction (settle_order env id o lines s)
  check_and_alert (map (λ (p, _). p) lines)
  read_order id

-- `confirmByToken`
unfoldable pub confirm_by_token : Env → ℕ → Exec World (Option Order)
confirm_by_token env token = customer_confirm env token

-- `getConfirmData`: the receipt, with the name of each item if it has one
pub record Receipt : Type 0 where
  pub car_number : Text
  pub car_model : Option Text
  pub master_fullname : Text
  pub order_items : List (Option Text × ℕ × ℕ)
  pub total_amount : ℕ
  pub delivery_needed : Bool

unfoldable pub get_confirm_data : ℕ → Exec World Receipt
unfolding find_by_token items_of
get_confirm_data token = do
  (id, o) ← find_by_token token
  master_row ← gets (λ w. lookup o.master_id w.users)
  m ← or_throw master_row record_missing
  items ← gets (items_of id)
  pure (record {
    car_number = o.car_number;
    car_model = o.car_model;
    master_fullname = m.fullname;
    order_items = map (λ (_, i). (i.item_name, i.quantity, i.price_at_time)) items;
    total_amount = o.total_amount;
    delivery_needed = o.delivery_needed;
  })
