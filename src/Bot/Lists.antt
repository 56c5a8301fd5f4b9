-- ===== src/Bot/Lists.antt =====
-- src/bot/bot.update.ts: the lists and figures that the bot writes out (sendBossTodayReport …
-- sendDriverTarixList), as data. A day begins at midnight UTC; texts and dates are not formatted.
pub mod Own
use ustabobo_bot.Base.{
  ℕ, ◌+◌, ◌-◌, ◌*◌, ◌%◌, Bool, true, false, not, ◌&&◌, ◌||◌, Option, none, some, List, [], ◌∷◌, map,
  ◌==◌, ltb, leb, length, sum_by, holds, if◌then◌else◌,
}
use ustabobo_bot.Base.Int.{ℤ}
use ustabobo_bot.Base.Pages.{take, drop}
use ustabobo_bot.Base.Table.{Table, lookup, find_many}
use ustabobo_bot.Schema.{
  World, Text, Order, User, Role, OrderStatus, Product, Organization, completed, cancelled,
  accepted, received_by_driver, delivered_by_driver, master, driver,
}
use ustabobo_bot.OrderStatusMachine.{same_status}
use ustabobo_bot.Orders.Draft.{distinct}
use ustabobo_bot.Orders.Queries.{is_closed, newest_first}
use ustabobo_bot.Reports.Overall.{sort_desc}

abbrev pub day : ℕ
day = 86_400_000

-- `setHours(0, 0, 0, 0)`
abbrev pub midnight : ℕ → ℕ
midnight t = t - t % day

abbrev pub days_ago : ℕ → ℕ → ℕ
days_ago n t = t - n * day

abbrev pub rows {ℓ} : {A : Type ℓ} → Table A → List A
rows = map (λ (_, a). a)

-- `order.count({ where })` and `_sum: { total_amount: true }`
abbrev pub count_orders : (Order → Bool) → World → ℕ
count_orders test w = length (find_many test w.orders)

abbrev pub revenue_of : (Order → Bool) → World → ℕ
revenue_of test w = sum_by (λ o. o.total_amount) (rows (find_many test w.orders))

abbrev pub created_in : ℕ → ℕ → Order → Bool
created_in from to o = leb from o.created_at && leb o.created_at to

abbrev pub has_status : OrderStatus → Order → Bool
has_status s o = same_status o.status s

pub record TodayReport : Type 0 where
  pub orders : ℕ
  pub active : ℕ
  pub revenue : ℕ

unfoldable pub today_report : ℕ → World → TodayReport
today_report now w =
    let from = midnight now in
    let to = midnight now + (day - 1) in
    record {
      orders = count_orders (created_in from to) w;
      active = count_orders (λ o. not (is_closed o.status)) w;
      revenue = revenue_of (λ o. created_in from to o && has_status completed o) w;
    }

-- one row of `groupBy({ by: ['master_id'], _count })`
pub record MasterCount : Type 0 where
  pub master_id : ℕ
  pub count : ℕ

unfoldable pub counts_of : List ℕ → Table Order → List MasterCount
counts_of [] t = []
counts_of (m ∷ ms) t =
    record { master_id = m; count = length (find_many (λ (o : Order). o.master_id == m) t) }
    ∷ counts_of ms t

-- the groups in the order of their rows; the database gives them in an order of its own
abbrev pub master_counts : Table Order → List MasterCount
master_counts t = counts_of (distinct (map (λ (_, o). o.master_id) t)) t

abbrev pub named : Option User → ℕ → Option (Text × ℕ)
named none n = none
named (some u) n = some (u.fullname, n)

-- `engFaol`: the master with the most completed orders
abbrev pub busiest : List MasterCount → World → Option (Text × ℕ)
busiest [] w = none
busiest (c ∷ _) w = named (lookup c.master_id w.users) c.count

pub record WeekReport : Type 0 where
  pub orders : ℕ
  pub completed : ℕ
  pub cancelled : ℕ
  pub revenue : ℕ
  pub top : Option (Text × ℕ)

abbrev pub in_week : ℕ → Order → Bool
in_week now = created_in (midnight (days_ago 7 now)) now

unfoldable pub week_report : ℕ → World → WeekReport
unfolding distinct counts_of sort_desc
week_report now w =
    let done = λ (o : Order). in_week now o && has_status completed o in
    record {
      orders = count_orders (in_week now) w;
      completed = count_orders done w;
      cancelled = count_orders (λ o. in_week now o && has_status cancelled o) w;
      revenue = revenue_of done w;
      top = busiest (sort_desc (λ c. c.count) (master_counts (find_many done w.orders))) w;
    }

pub record StaffRow : Type 0 where
  pub fullname : Text
  pub is_master : Bool
  pub count : ℕ

abbrev pub is_master_role : Role → Bool
is_master_role master = true
is_master_role _ = false

abbrev pub works : User → Bool
works u = u.is_active && elim u.role [ master ↦ true | driver ↦ true | _ ↦ false ]

abbrev pub staff_row : ℕ → World → ℕ × User → StaffRow
staff_row now w (id, u) = record {
  fullname = u.fullname;
  is_master = is_master_role u.role;
  count =
      count_orders
        (λ o.
          (if is_master_role u.role then o.master_id == id else holds id o.driver_id)
          && leb (days_ago 7 now) o.created_at)
        w;
}

-- `filter((r) => r.count > 0)`
unfoldable pub busy_rows : List StaffRow → List StaffRow
busy_rows [] = []
busy_rows (r ∷ rest) = if ltb 0 r.count then r ∷ busy_rows rest else busy_rows rest

unfoldable pub staff_report : ℕ → World → List StaffRow
unfolding busy_rows sort_desc
staff_report now w =
    sort_desc (λ r. r.count) (busy_rows (map (staff_row now w) (find_many works w.users)))

-- `balance_due: { gt: 0 }`, the largest first
unfoldable pub debts_report : World → List Organization
unfolding sort_desc
debts_report w =
    sort_desc (λ o. o.balance_due) (rows (find_many (λ o. ltb 0 o.balance_due) w.organizations))

unfoldable pub lowstock_report : World → List Product
lowstock_report w = rows (find_many (λ p. p.is_active && leb p.stock_count p.min_limit) w.products)

pub record MasterStats : Type 0 where
  pub today : ℕ
  pub week : ℕ
  pub all : ℕ
  pub revenue : ℕ
  pub percent_rate : ℕ
  pub balance : ℤ

abbrev pub completed_of : ℕ → Order → Bool
completed_of id o = o.master_id == id && has_status completed o

unfoldable pub master_stats : ℕ → ℕ → User → World → MasterStats
master_stats now id u w =
    let today = midnight now in
    record {
      today = count_orders (λ o. completed_of id o && leb today o.created_at) w;
      week = count_orders (λ o. completed_of id o && leb (days_ago 7 today) o.created_at) w;
      all = count_orders (completed_of id) w;
      revenue = revenue_of (completed_of id) w;
      percent_rate = u.percent_rate;
      balance = u.balance;
    }

-- `sendDriverFaolList`
abbrev pub is_driving : ℕ → Order → Bool
is_driving id o =
    holds id o.driver_id
    && (has_status accepted o
        || has_status received_by_driver o
        || has_status delivered_by_driver o)

unfoldable pub driver_faol : ℕ → World → Table Order
unfolding newest_first
driver_faol id w = newest_first (find_many (is_driving id) w.orders)

-- `sendMasterFaolList`: ten at most
abbrev pub is_open_of : ℕ → Order → Bool
is_open_of id o = o.master_id == id && not (is_closed o.status)

unfoldable pub master_faol : ℕ → World → Table Order
unfolding newest_first take
master_faol id w = take 10 (newest_first (find_many (is_open_of id) w.orders))

-- a page of the history: one order more than is shown is asked for
pub record HistoryPage : Type 0 where
  pub lines : Table Order
  pub has_previous : Bool
  pub has_next : Bool

unfoldable pub history_page : ℕ → Table Order → HistoryPage
unfolding take drop
history_page skip t =
    let found = take 11 (drop skip t) in
    record { lines = take 10 found; has_previous = ltb 0 skip; has_next = ltb 10 (length found) }

abbrev pub is_closed_of : ℕ → Order → Bool
is_closed_of id o = o.master_id == id && is_closed o.status

abbrev pub is_driven : ℕ → Order → Bool
is_driven id o = holds id o.driver_id && (is_closed o.status || has_status delivered_by_driver o)

-- `sendMasterTarixList` and `sendDriverTarixList`
unfoldable pub master_tarix : ℕ → ℕ → World → HistoryPage
unfolding history_page newest_first
master_tarix skip id w = history_page skip (newest_first (find_many (is_closed_of id) w.orders))

unfoldable pub driver_tarix : ℕ → ℕ → World → HistoryPage
unfolding history_page newest_first
driver_tarix skip id w = history_page skip (newest_first (find_many (is_driven id) w.orders))

-- what the bot writes out
pub data Listing : Type 0 where
  today : TodayReport → Listing
  week : WeekReport → Listing
  staff : List StaffRow → Listing
  debts : List Organization → Listing
  low_stock : List Product → Listing
  stats : MasterStats → Listing
  active deliveries : Table Order → Listing
  history : HistoryPage → Listing
