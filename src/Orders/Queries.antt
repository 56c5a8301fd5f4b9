-- ===== src/Orders/Queries.antt =====
-- src/orders/orders.service.ts: the queries of the web application (getMyOrders, getMyOrdersByUserId,
-- getOrderForWebApp), and how src/orders/orders.controller.ts reads and guards them.
pub mod Access
use ustabobo_bot.Base.{
  ℕ, zero, max, min, Bool, true, false, not, ◌&&◌, ◌||◌, Option, none, some, List, [], ◌∷◌, ◌==◌,
  if◌then◌else◌, holds, length, leb,
}
use ustabobo_bot.Base.Int.{ℤ, pos, negsuc}
use ustabobo_bot.Base.Table.{Table, lookup, find_first, find_many}
use ustabobo_bot.Base.Pages.{page}
use ustabobo_bot.Base.Exec.{Exec, forbidden, not_yours, pure, gets, throw_if, ◌>>=◌, ◌>>◌}
use ustabobo_bot.Schema.{
  World, Text, Order, User, Role, OrderStatus, driver, boss, completed, cancelled,
}
use ustabobo_bot.OrderStatusMachine.{same_status}
use ustabobo_bot.Text.{codes, same_text}
use ustabobo_bot.Orders.{find_order}
use ustabobo_bot.Orders.Location.{has_tg}

abbrev pub is_closed : OrderStatus → Bool
is_closed s = same_status s completed || same_status s cancelled

-- `statusFilterForMyOrders`, as the test that it asks the database for
unfoldable pub status_passes : Text → OrderStatus → Bool
unfolding same_text
status_passes filter s =
    if length filter == 0 || same_text filter (codes "all")
    then true
    else if same_text filter (codes "active")
    then not (is_closed s)
    else if same_text filter (codes "completed")
    then same_status s completed
    else if same_text filter (codes "cancelled")
    then same_status s cancelled
    else if same_text filter (codes "history")
    then is_closed s
    else true

-- `role === 'driver' ? { driver_id } : { master_id }`
abbrev pub takes_part : ℕ → Role → Order → Bool
takes_part user driver o = holds user o.driver_id
takes_part user _ o = o.master_id == user

abbrev pub is_listed : ℕ → Role → Text → Order → Bool
is_listed user role filter o = takes_part user role o && status_passes filter o.status

-- `orderBy: { created_at: 'desc' }`
unfoldable pub insert_newest : ℕ × Order → Table Order → Table Order
insert_newest (k, o) [] = (k, o) ∷ []
insert_newest (k, o) ((j, p) ∷ t) =
    let later = insert_newest (k, o) t in
    if leb p.created_at o.created_at then (k, o) ∷ (j, p) ∷ t else (j, p) ∷ later

unfoldable pub newest_first : Table Order → Table Order
unfolding insert_newest
newest_first [] = []
newest_first (r ∷ t) = insert_newest r (newest_first t)

pub record OrderList : Type 0 where
  pub items : Table Order
  pub total : ℕ
  pub page : ℕ
  pub limit : ℕ

abbrev pub all_listed : ℕ → Role → Text → World → Table Order
all_listed user role filter w = find_many (is_listed user role filter) w.orders

unfoldable pub get_my_orders_by_user_id : ℕ → Role → Text → ℕ → ℕ → World → OrderList
unfolding newest_first
get_my_orders_by_user_id user role filter p limit w = record {
  items = page p limit (newest_first (all_listed user role filter w));
  total = length (all_listed user role filter w);
  page = p;
  limit = limit;
}

-- `findUserByTelegramId`
unfoldable pub find_user_by_telegram_id : ℕ → World → Option (ℕ × User)
find_user_by_telegram_id tg w = find_first (has_tg tg) w.users

abbrev pub no_orders : ℕ → OrderList
no_orders limit = record { items = []; total = 0; page = 1; limit = limit }

abbrev pub orders_of : Option (ℕ × User) → Text → ℕ → ℕ → World → OrderList
orders_of none filter p limit w = no_orders limit
orders_of (some (id, u)) filter p limit w = get_my_orders_by_user_id id u.role filter p limit w

unfoldable pub get_my_orders : ℕ → Text → ℕ → ℕ → World → OrderList
get_my_orders tg filter p limit w = orders_of (find_user_by_telegram_id tg w) filter p limit w

-- `parseInt(text, 10) || d`; the parameter is absent, no number (`some none`), or a number
abbrev pub or_default : Option ℤ → ℕ → ℤ
or_default none d = pos d
or_default (some (pos zero)) d = pos d
or_default (some n) d = n

-- `Math.max(1, n)`
abbrev pub at_least_1 : ℤ → ℕ
at_least_1 (pos n) = max 1 n
at_least_1 (negsuc _) = 1

abbrev pub page_num : Option (Option ℤ) → ℕ
page_num none = 1
page_num (some n) = at_least_1 (or_default n 1)

abbrev pub limit_num : Option (Option ℤ) → ℕ
limit_num none = 100
limit_num (some n) = min 100 (at_least_1 (or_default n 20))

-- the handler of `GET orders/my/:telegramId` for the signed-in user
abbrev pub is_self : ℕ → Option (ℕ × User) → Bool
is_self user none = false
is_self user (some (id, _)) = id == user

unfoldable pub my_orders_endpoint :
    ℕ → ℕ → Text → Option (Option ℤ) → Option (Option ℤ) → Exec World OrderList
my_orders_endpoint tg user filter p limit = do
  found ← gets (find_user_by_telegram_id tg)
  throw_if (not (is_self user found)) (forbidden not_yours)
  gets (get_my_orders tg filter (page_num p) (limit_num limit))

abbrev pub is_boss_role : Role → Bool
is_boss_role boss = true
is_boss_role _ = false

unfoldable pub get_order_for_web_app : ℕ → ℕ → Role → Exec World Order
get_order_for_web_app id user role = do
  order ← find_order id
  throw_if
      (not (is_boss_role role) && not (order.master_id == user) && not (holds user order.driver_id))
      (forbidden not_yours)
  pure order
