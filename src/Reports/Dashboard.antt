-- ===== src/Reports/Dashboard.antt =====
-- src/admin/admin-dashboard.service.ts: the figures of the dashboard. A date is the number of its day.
pub mod Week
pub mod Statuses
pub mod Summary
use ustabobo_bot.Base.{
  ℕ, zero, suc, ◌+◌, ◌-◌, ◌*◌, ◌/◌, Bool, true, false, ◌&&◌, Option, none, some, List, [], ◌∷◌, map,
  ◌==◌, if◌then◌else◌,
}
use ustabobo_bot.Base.Int.{ℤ, pos, ◌-ℤ◌}
use ustabobo_bot.Base.Table.{Table, lookup}
use ustabobo_bot.Schema.{
  World, Order, OrderStatus, OrderItem, OrderItemType, Product, Transaction, TransactionType, draft,
  waiting_confirmation, waiting_master_work_start, broadcasted, accepted, received_by_driver,
  waiting_master_delivery_confirmation, delivered_by_driver, received_by_master, working,
  waiting_customer_confirmation, completed, cancelled, product, master_fee, driver_fee,
}
use ustabobo_bot.Bot.Lists.{
  day, midnight, days_ago, created_in, has_status, count_orders, revenue_of,
}

-- `Array.from({ length: n })`, the last of which is now
unfoldable pub days_back : ℕ → ℕ → List ℕ
days_back zero now = []
days_back (suc n) now = days_ago n now ∷ days_back n now

abbrev pub end_of : ℕ → ℕ
end_of t = midnight t + (day - 1)

pub record WeeklyOrderItem : Type 0 where
  pub date : ℕ
  pub count : ℕ

abbrev pub orders_of_day : World → ℕ → WeeklyOrderItem
orders_of_day w d = record {
  date = d / day;
  count = count_orders (created_in (midnight d) (end_of d)) w;
}

unfoldable pub get_weekly_orders : ℕ → World → List WeeklyOrderItem
unfolding days_back
get_weekly_orders now w = map (orders_of_day w) (days_back 7 now)

pub record WeeklyRevenueItem : Type 0 where
  pub date : ℕ
  pub revenue : ℕ

abbrev pub revenue_of_day : World → ℕ → WeeklyRevenueItem
revenue_of_day w d = record {
  date = d / day;
  revenue = revenue_of (λ o. has_status completed o && created_in (midnight d) (end_of d) o) w;
}

unfoldable pub get_weekly_revenue : ℕ → World → List WeeklyRevenueItem
unfolding days_back
get_weekly_revenue now w = map (revenue_of_day w) (days_back 7 now)

-- `groupBy({ by: ['status'] })`: no row for a status that no order has; the order of the rows is the
-- database's, and here that of the enumeration
pub record OrderStatusCountItem : Type 0 where
  pub status : OrderStatus
  pub count : ℕ

abbrev pub statuses : List OrderStatus
statuses =
    draft ∷ waiting_confirmation ∷ waiting_master_work_start ∷ broadcasted ∷ accepted
    ∷ received_by_driver ∷ waiting_master_delivery_confirmation ∷ delivered_by_driver
    ∷ received_by_master ∷ working ∷ waiting_customer_confirmation ∷ completed ∷ cancelled ∷ []

abbrev pub add_count : OrderStatus → ℕ → List OrderStatusCountItem → List OrderStatusCountItem
add_count s zero rest = rest
add_count s (suc n) rest = record { status = s; count = suc n } ∷ rest

unfoldable pub counts_by : World → List OrderStatus → List OrderStatusCountItem
counts_by w [] = []
counts_by w (s ∷ ss) = add_count s (count_orders (has_status s) w) (counts_by w ss)

unfoldable pub get_order_status_counts : World → List OrderStatusCountItem
unfolding counts_by
get_order_status_counts w = counts_by w statuses

-- `getUmumiyTushum`
unfoldable pub get_umumiy_tushum : World → ℕ
get_umumiy_tushum w = revenue_of (λ o. true) w

-- `getSofFoyda`: what the completed orders brought, less the fees and what the products had cost
abbrev pub is_fee : TransactionType → Bool
is_fee master_fee = true
is_fee driver_fee = true
is_fee _ = false

unfoldable pub fees : Table Transaction → ℕ
fees [] = 0
fees ((_, t) ∷ rest) = let others = fees rest in if is_fee t.type then t.amount + others else others

abbrev pub is_product : OrderItemType → Bool
is_product product = true
is_product _ = false

abbrev pub is_completed : Option Order → Bool
is_completed none = false
is_completed (some o) = has_status completed o

abbrev pub cost_of : Option Product → ℕ
cost_of none = 0
cost_of (some p) = p.cost_price

-- an item whose product was deleted costs nothing
abbrev pub product_of : Option ℕ → World → Option Product
product_of none w = none
product_of (some id) w = lookup id w.products

unfoldable pub costs : World → Table OrderItem → ℕ
costs w [] = 0
costs w ((_, i) ∷ rest) =
    let others = costs w rest in
    if is_product i.item_type && is_completed (lookup i.order_id w.orders)
    then cost_of (product_of i.product_id w) * i.quantity + others
    else others

pub record SofFoyda : Type 0 where
  pub sof_foyda : ℤ
  pub tushum : ℕ
  pub ish_haqi : ℕ
  pub zapchast_tannarx : ℕ
  pub yalpi_foyda : ℤ

unfoldable pub get_sof_foyda : World → SofFoyda
unfolding fees costs
get_sof_foyda w =
    let tushum = revenue_of (has_status completed) w in
    let ish_haqi = fees w.transactions in
    let tannarx = costs w w.order_items in
    record {
      sof_foyda = pos tushum -ℤ pos tannarx -ℤ pos ish_haqi;
      tushum = tushum;
      ish_haqi = ish_haqi;
      zapchast_tannarx = tannarx;
      yalpi_foyda = pos tushum -ℤ pos tannarx;
    }
