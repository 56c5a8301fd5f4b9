-- ===== src/Reports/Dashboard/Statuses.antt =====
-- The counts by status are a count of all orders.
use ustabobo_bot.Base.{
  ℕ, zero, suc, ◌+◌, ◌≡◌, refl, List, [], ◌∷◌, length, if◌then◌else◌, sum_by, arith, ◌∙◌,
}
use ustabobo_bot.Base.Table.{Table, find_many}
use ustabobo_bot.Schema.{
  World, Order, OrderStatus, draft, waiting_confirmation, waiting_master_work_start, broadcasted,
  accepted, received_by_driver, waiting_master_delivery_confirmation, delivered_by_driver,
  received_by_master, working, waiting_customer_confirmation, completed, cancelled,
}
use ustabobo_bot.OrderStatusMachine.{same_status}
use ustabobo_bot.Bot.Lists.{count_orders, has_status}
use ustabobo_bot.Reports.Dashboard.{
  OrderStatusCountItem, statuses, counts_by, get_order_status_counts, add_count,
}

-- how many orders of the table have one of these statuses, counted by status
by_status : List OrderStatus → Table Order → ℕ
by_status ss t = sum_by (λ s. length (find_many (has_status s) t)) ss

counted : List OrderStatusCountItem → ℕ
counted = sum_by (λ (r : OrderStatusCountItem). r.count)

counted-add_count :
    (s : OrderStatus) (n : ℕ) (rest : List OrderStatusCountItem)
    → counted (add_count s n rest) ≡ n + counted rest
unfolding counted
counted-add_count s zero rest = omega arith
counted-add_count s (suc n) rest = refl

counted-counts_by :
    (w : World) (ss : List OrderStatus) → counted (counts_by w ss) ≡ by_status ss w.orders
unfolding counts_by by_status counted
counted-counts_by w [] = refl
counted-counts_by w (s ∷ ss) = omega (
  arith,
  counted-add_count s (count_orders (has_status s) w) (counts_by w ss),
  counted-counts_by w ss,
)

-- how often a status is in a list
hits : OrderStatus → List OrderStatus → ℕ
hits s = sum_by (λ u. if same_status s u then 1 else 0)

by_status-cons :
    (k : ℕ) (o : Order) (t : Table Order) (ss : List OrderStatus)
    → by_status ss ((k, o) ∷ t) ≡ hits o.status ss + by_status ss t
unfolding by_status hits find_many
by_status-cons k o t [] = refl
by_status-cons k o t (s ∷ ss) = ground (arith, by_status-cons k o t ss)

hits-statuses : (s : OrderStatus) → hits s statuses ≡ 1
unfolding hits
hits-statuses draft = refl
hits-statuses waiting_confirmation = refl
hits-statuses waiting_master_work_start = refl
hits-statuses broadcasted = refl
hits-statuses accepted = refl
hits-statuses received_by_driver = refl
hits-statuses waiting_master_delivery_confirmation = refl
hits-statuses delivered_by_driver = refl
hits-statuses received_by_master = refl
hits-statuses working = refl
hits-statuses waiting_customer_confirmation = refl
hits-statuses completed = refl
hits-statuses cancelled = refl

by_status-nil : (ss : List OrderStatus) → by_status ss [] ≡ 0
unfolding by_status find_many
by_status-nil [] = refl
by_status-nil (s ∷ ss) = omega (arith, by_status-nil ss)

by_status-statuses : (t : Table Order) → by_status statuses t ≡ length t
by_status-statuses [] = by_status-nil statuses
by_status-statuses ((k, o) ∷ t) =
    omega (arith, by_status-cons k o t statuses, hits-statuses o.status, by_status-statuses t)

-- The counts of the statuses add up to the number of all orders: every order is counted, and once.
pub get_order_status_counts-total :
    (w : World)
    → sum_by (λ (r : OrderStatusCountItem). r.count) (get_order_status_counts w) ≡ length w.orders
unfolding get_order_status_counts counted
get_order_status_counts-total w = counted-counts_by w statuses ∙ by_status-statuses w.orders
