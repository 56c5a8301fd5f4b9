-- ===== src/Reports/History.antt =====
-- src/admin/admin.service.ts: getClientOrders, getClientsHistory, getVehicleHistory, and the daily
-- report of src/bot/cron/daily-report.cron.ts: figures over a set of orders. The names in the rows
-- are not kept; the search that ignores case is a parameter, as in the list of the clients.
pub mod Spent
pub mod Daily
use ustabobo_bot.Base.{
  ℕ, ◌+◌, ◌-◌, ◌*◌, ◌/◌, ◌%◌, Bool, true, false, not, ◌&&◌, ◌||◌, Option, none, some, List, [], ◌∷◌,
  map, ltb, leb, ◌==◌, if◌then◌else◌, is_some, or_else, length, holds, sum_by,
}
use ustabobo_bot.Base.Table.{Table, lookup, find_many}
use ustabobo_bot.Base.Pages.{page}
use ustabobo_bot.Base.Exec.{
  Exec, bad_request, not_found, vehicle_missing, no_search, pure, gets, or_throw, throw_if, ◌>>=◌,
  ◌>>◌,
}
use ustabobo_bot.Schema.{World, Text, Order, OrderStatus, OrderItem, Vehicle, completed}
use ustabobo_bot.OrderStatusMachine.{same_status}
use ustabobo_bot.Text.{trim, is_digit, is_space}
use ustabobo_bot.Orders.Queries.{newest_first}
use ustabobo_bot.Reports.{end_of_day}
use ustabobo_bot.Reports.Clients.{contains, not_before, not_after, has_status}

abbrev pub is_done : Order → Bool
is_done o = same_status o.status completed

-- the `total_amount` of all orders, and of those that are completed
unfoldable pub amounts : Table Order → ℕ
amounts [] = 0
amounts ((_, o) ∷ t) = o.total_amount + amounts t

unfoldable pub amounts_done : Table Order → ℕ
amounts_done [] = 0
amounts_done ((_, o) ∷ t) =
    let rest = amounts_done t in if is_done o then o.total_amount + rest else rest

-- `Math.ceil(total / limit)`
abbrev pub page_count : ℕ → ℕ → ℕ
page_count total limit = (total + (limit - 1)) / limit

abbrev pub first_name : Table Order → Text
first_name [] = []
first_name ((_, o) ∷ _) = o.client_name

abbrev pub first_phone : Table Order → Text
first_phone [] = []
first_phone ((_, o) ∷ _) = o.client_phone

-- getClientOrders
pub record PhoneFilters : Type 0 where
  pub from : Option ℕ
  pub to : Option ℕ
  pub status : Option OrderStatus

pub record ClientOrders : Type 0 where
  pub client_name : Text
  pub total_orders : ℕ
  pub total_spent : ℕ
  pub orders : Table Order

-- `replace(/\D/g, '')`
unfoldable pub only_digits : Text → Text
only_digits [] = []
only_digits (c ∷ s) = if is_digit c then c ∷ only_digits s else only_digits s

-- the digits, if there are seven, and else the number as it came
abbrev pub searched_phone : Text → Text
searched_phone phone = if leb 7 (length (only_digits phone)) then only_digits phone else phone

unfoldable pub is_of_client : Text → PhoneFilters → Order → Bool
unfolding only_digits contains
is_of_client phone f o =
    not (is_some o.organization_id)
    && contains (searched_phone phone) o.client_phone
    && not_before f.from o.created_at
    && not_after f.to o.created_at
    && has_status f.status o.status

unfoldable pub get_client_orders : Text → PhoneFilters → World → ClientOrders
unfolding is_of_client newest_first
get_client_orders phone f w =
    let orders = newest_first (find_many (is_of_client phone f) w.orders) in
    record {
      client_name = first_name orders;
      total_orders = length orders;
      total_spent = amounts_done orders;
      orders = orders;
    }

-- getClientsHistory
pub record ClientInfo : Type 0 where
  pub client_name : Text
  pub client_phone : Text
  pub total_orders : ℕ
  pub total_spent : ℕ

pub record ClientHistory : Type 0 where
  pub client : Option ClientInfo
  pub orders : Table Order
  pub total : ℕ
  pub total_pages : ℕ

-- the characters of `[\s\-+()]`
abbrev pub is_phone_mark : ℕ → Bool
is_phone_mark c = is_space c || c == b'-' || c == b'+' || c == b'(' || c == b')'

unfoldable pub without_marks : Text → Text
without_marks [] = []
without_marks (c ∷ s) = if is_phone_mark c then without_marks s else c ∷ without_marks s

abbrev pub is_blank : Text → Bool
is_blank s = length (trim s) == 0

abbrev pub client_info : Table Order → ℕ → ℕ → Option ClientInfo
client_info [] total spent = none
client_info ((_, o) ∷ _) total spent = some (record {
  client_name = o.client_name;
  client_phone = o.client_phone;
  total_orders = total;
  total_spent = spent;
})

abbrev pub client_page : Table Order → ℕ → ℕ → ClientHistory
client_page all p limit = record {
  client = client_info (page p limit (newest_first all)) (length all) (amounts all);
  orders = page p limit (newest_first all);
  total = length all;
  total_pages = page_count (length all) limit;
}

module _ (matches : Text → Text → Bool) where
  unfoldable pub is_in_history : Text → Text → Order → Bool
  unfolding without_marks contains trim
  is_in_history phone car o =
      (is_blank phone
        || length (without_marks phone) == 0
        || contains (without_marks phone) o.client_phone)
      && (is_blank car || matches (trim car) o.car_number)

  abbrev pub history_of : Text → Text → World → Table Order
  history_of phone car w = find_many (is_in_history phone car) w.orders

  unfoldable pub get_clients_history : Text → Text → ℕ → ℕ → Exec World ClientHistory
  unfolding is_in_history newest_first
  get_clients_history phone car p limit = do
    throw_if (is_blank phone && is_blank car) (bad_request no_search)
    gets (λ w. client_page (history_of phone car w) p limit)

-- getVehicleHistory
pub record VehicleHistory : Type 0 where
  pub plate_number : Text
  pub model : Text
  pub total_services : ℕ
  pub total_spent : ℕ
  pub last_service_date : Option ℕ
  pub orders : Table Order
  pub total_pages : ℕ

abbrev pub is_of_vehicle : ℕ → Order → Bool
is_of_vehicle id o = holds id o.vehicle_id

abbrev pub last_service : Table Order → Option ℕ
last_service [] = none
last_service ((_, o) ∷ _) = some (or_else o.completed_at o.created_at)

abbrev pub vehicle_page : Vehicle → Table Order → ℕ → ℕ → VehicleHistory
vehicle_page v all p limit = record {
  plate_number = v.plate_number;
  model = v.model;
  total_services = length all;
  total_spent = amounts_done all;
  last_service_date = last_service (newest_first all);
  orders = page p limit (newest_first all);
  total_pages = page_count (length all) limit;
}

unfoldable pub get_vehicle_history : ℕ → ℕ → ℕ → Exec World VehicleHistory
unfolding newest_first
get_vehicle_history id p limit = do
  found ← gets (λ w. lookup id w.vehicles)
  v ← or_throw found (not_found vehicle_missing)
  gets (λ w. vehicle_page v (find_many (is_of_vehicle id) w.orders) p limit)

-- runDailyReport: `now` is the time of the run, and the window ends at 19:00 of its day
abbrev pub window_end : ℕ → ℕ
window_end now = now / 86_400_000 * 86_400_000 + 19 * 3_600_000

abbrev pub is_in_daily : ℕ → Order → Bool
is_in_daily now o =
    leb (window_end now - 86_400_000) o.created_at && leb o.created_at (window_end now) && is_done o

pub record DailyReport : Type 0 where
  pub orders : Table Order
  pub total_amount : ℕ

unfoldable pub daily_report : ℕ → World → DailyReport
daily_report now w =
    let orders = find_many (is_in_daily now) w.orders in
    record { orders = orders; total_amount = amounts orders }
