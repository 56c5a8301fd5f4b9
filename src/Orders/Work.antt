-- ===== src/Orders/Work.antt =====
-- src/orders/orders.service.ts: the handlers that take a confirmed order to its end without a
-- driver: confirm, masterStartWork, cancelOrder, finish, receive.
use ustabobo_bot.Base.{Option, ℕ, Bool, not, ◌&&◌, some, List, ◌∷◌, ◌==◌, if◌then◌else◌, length}
use ustabobo_bot.Base.Exec.{Exec, pure, gets, put, transaction, ◌>>=◌, ◌>>◌}
use ustabobo_bot.Schema.{
  World, Env, Order, OrderStatus, draft, waiting_master_work_start, broadcasted, working,
  waiting_customer_confirmation, cancelled, master_confirmed, master_started_work,
  by_master_received, order_cancelled, master_finished, work_start_request, work_started,
  finish_link,
}
use ustabobo_bot.Prisma.{update_order, create_event, notify_user, updated}
use ustabobo_bot.OrderStatusMachine.{same_status}
use ustabobo_bot.PriceCalculator.{calculate_order_total, OrderItemForTotal}
use ustabobo_bot.Orders.{own_order, assert_transition, find_tg, totals_of, read_order}

abbrev pub confirm_status : Order → OrderStatus
confirm_status o = if o.delivery_needed then broadcasted else waiting_master_work_start

-- an order confirmed straight from the draft has no total yet
abbrev pub confirm_total : Order → List OrderItemForTotal → ℕ
confirm_total o items =
    if same_status o.status draft && o.total_amount == 0 && not (length items == 0)
    then calculate_order_total items o.delivery_needed
    else o.total_amount

-- the work after the commit: a job for the drivers, or a question to the master
abbrev pub after_confirm : ℕ → Order → Exec World (Unit {0})
after_confirm id o =
    if o.delivery_needed
    then put (λ w. record w { broadcast_queue = id ∷ w.broadcast_queue })
    else (do tg ← find_tg o.master_id; notify_user tg (λ chat. work_start_request chat id))

unfoldable pub confirm : ℕ → ℕ → Exec World Order
confirm id master_id = do
  order ← own_order id master_id
  let new_status = confirm_status order
  assert_transition order.status new_status
  items ← gets (totals_of id)
  let total = confirm_total order items
  updated ← transaction (do
    updated ← update_order id (λ o. record o { status = new_status; total_amount = total })
    create_event id (some master_id)
        (master_confirmed order.status new_status order.delivery_needed)
    pure updated)
  after_confirm id order
  pure updated

unfoldable pub master_start_work : ℕ → ℕ → Exec World (Option Order)
master_start_work id master_id = do
  order ← own_order id master_id
  assert_transition order.status working
  transaction (do
    update_order id (λ o. record o { status = working })
    create_event id (some master_id) master_started_work)
  tg ← find_tg order.master_id
  notify_user tg (λ chat. work_started chat id)
  read_order id

unfoldable pub cancel_order : ℕ → ℕ → Exec World Order
cancel_order id master_id = do
  order ← own_order id master_id
  assert_transition order.status cancelled
  transaction (do
    updated ← update_order id (λ o. record o { status = cancelled })
    create_event id (some master_id) (order_cancelled order.status)
    pure updated)

-- The token is `randomUUID()`. The link goes to the master if the bot's name is configured.
unfoldable pub finish : Env → Bool → ℕ → ℕ → Exec World ℕ
finish env bot_username id master_id = do
  order ← own_order id master_id
  assert_transition order.status waiting_customer_confirmation
  let confirm_token = env.uuid 0
  transaction (do
    update_order id (λ o. record o {
      confirm_token = some confirm_token;
      status = waiting_customer_confirmation;
    })
    create_event id (some master_id) (master_finished confirm_token))
  tg ← find_tg order.master_id
  if bot_username then notify_user tg (λ chat. finish_link chat confirm_token) else pure tt
  pure confirm_token

unfoldable pub receive : ℕ → ℕ → Exec World Order
receive id master_id = do
  order ← own_order id master_id
  assert_transition order.status working
  transaction (do
    updated ← update_order id (λ o. record o { status = working })
    create_event id (some master_id) by_master_received
    pure updated)
