-- ===== src/Reports/Overall.antt =====
-- src/admin/admin.service.ts: getReports, and the figures of getMasterReport. The list of the top
-- services is not kept, and neither are the telephone numbers of the organizations.
pub mod Laws
pub mod Rows
use ustabobo_bot.Base.{
  ℕ, suc, ◌+◌, ◌/◌, Bool, true, false, ◌&&◌, Option, none, some, List, [], ◌∷◌, map, ltb, leb, ◌==◌,
  if◌then◌else◌, holds, length, sum_by,
}
use ustabobo_bot.Base.Int.{ℤ, pos, ◌-ℤ◌}
use ustabobo_bot.Base.Table.{Table, lookup, find_first, find_many}
use ustabobo_bot.Base.Exec.{
  Exec, bad_request, not_found, user_missing, bad_period, gets, pure, or_throw, ◌>>=◌, ◌>>◌,
}
use ustabobo_bot.Schema.{
  World, Text, Order, User, Organization, Role, master_fee, driver_fee, completed,
}
use ustabobo_bot.OrderStatusMachine.{same_status}
use ustabobo_bot.AdminOrders.{is_master_role}
use ustabobo_bot.Reports.{end_of_day, day_length, in_period, passes, passes_opt, paid, fullname_of}
use ustabobo_bot.Reports.Groups.{group_into, values}

pub record Filters : Type 0 where
  pub from : Option ℕ
  pub to : Option ℕ
  pub master_id : Option ℕ
  pub org_id : Option ℕ

pub record MasterRow : Type 0 where
  pub master_id : ℕ
  pub fullname : Text
  pub orders_count : ℕ
  pub total_revenue : ℕ
  pub master_fee : ℕ

pub record DriverRow : Type 0 where
  pub driver_id : ℕ
  pub fullname : Text
  pub deliveries_count : ℕ
  pub driver_fee : ℕ

pub record DebtRow : Type 0 where
  pub id : ℕ
  pub name : Text
  pub balance_due : ℕ

pub record Figures : Type 0 where
  pub total_orders : ℕ
  pub total_revenue : ℕ
  pub total_master_fees : ℕ
  pub total_driver_fees : ℕ
  pub boss_profit : ℤ

pub record Report : Type 0 where
  pub daily_revenue : List (ℕ × ℕ)
  pub summary : Figures
  pub master_breakdown : List MasterRow
  pub driver_breakdown : List DriverRow
  pub organization_debts : List DebtRow

-- `where` of the query
abbrev pub is_reported : Filters → ℕ → ℕ → Order → Bool
is_reported f from to o =
    same_status o.status completed
    && in_period from to o.completed_at
    && passes f.master_id o.master_id
    && passes_opt f.org_id o.organization_id

unfoldable pub reported : Filters → ℕ → ℕ → World → Table Order
reported f from to w = find_many (is_reported f from to) w.orders

abbrev pub revenue : Table Order → ℕ
revenue orders = sum_by (λ p. p.1.total_amount) orders

module _ (w : World) where
  abbrev pub master_key : ℕ × Order → Option ℕ
  master_key p = some p.1.master_id

  abbrev pub fresh_master : ℕ × Order → MasterRow
  fresh_master p = record {
    master_id = p.1.master_id;
    fullname = fullname_of (lookup p.1.master_id w.users);
    orders_count = 0;
    total_revenue = 0;
    master_fee = 0;
  }

  abbrev pub add_to_master : ℕ × Order → MasterRow → MasterRow
  add_to_master p r = record r {
    orders_count = suc r.orders_count;
    total_revenue = r.total_revenue + p.1.total_amount;
    master_fee = r.master_fee + paid master_fee p.0 w.transactions;
  }

  unfoldable pub master_map : Table Order → List (ℕ × MasterRow)
  master_map orders = group_into ◌==◌ master_key fresh_master add_to_master orders []

  abbrev pub driver_key : ℕ × Order → Option ℕ
  driver_key p = p.1.driver_id

  abbrev pub name_of_driver : Option ℕ → Text
  name_of_driver none = []
  name_of_driver (some d) = fullname_of (lookup d w.users)

  abbrev pub key_of : Option ℕ → ℕ
  key_of none = 0
  key_of (some d) = d

  abbrev pub fresh_driver : ℕ × Order → DriverRow
  fresh_driver p = record {
    driver_id = key_of p.1.driver_id;
    fullname = name_of_driver p.1.driver_id;
    deliveries_count = 0;
    driver_fee = 0;
  }

  abbrev pub add_to_driver : ℕ × Order → DriverRow → DriverRow
  add_to_driver p r = record r {
    deliveries_count = suc r.deliveries_count;
    driver_fee = r.driver_fee + paid driver_fee p.0 w.transactions;
  }

  unfoldable pub driver_map : Table Order → List (ℕ × DriverRow)
  driver_map orders = group_into ◌==◌ driver_key fresh_driver add_to_driver orders []

-- `toISOString().slice(0, 10)`: the number of the day stands for its name
abbrev pub day_of : Option ℕ → Option ℕ
day_of none = none
day_of (some t) = some (t / day_length)

abbrev pub day_key : ℕ × Order → Option ℕ
day_key p = day_of p.1.completed_at

-- `dailyMap.set(d, (dailyMap.get(d) ?? 0) + total_amount)`
unfoldable pub daily_map : Table Order → List (ℕ × ℕ)
daily_map orders = group_into ◌==◌ day_key (λ _. 0) (λ p r. r + p.1.total_amount) orders []

-- a stable sort by a figure: ascending, and descending
module _ {A : Type 0} (figure : A → ℕ) where
  unfoldable pub insert_asc : A → List A → List A
  insert_asc a [] = a ∷ []
  insert_asc a (b ∷ rest) =
      let later = insert_asc a rest in if leb (figure a) (figure b) then a ∷ b ∷ rest else b ∷ later

  unfoldable pub sort_asc : List A → List A
  unfolding insert_asc
  sort_asc [] = []
  sort_asc (a ∷ rest) = insert_asc a (sort_asc rest)

  unfoldable pub insert_desc : A → List A → List A
  insert_desc a [] = a ∷ []
  insert_desc a (b ∷ rest) =
      let later = insert_desc a rest in
      if leb (figure b) (figure a) then a ∷ b ∷ rest else b ∷ later

  unfoldable pub sort_desc : List A → List A
  unfolding insert_desc
  sort_desc [] = []
  sort_desc (a ∷ rest) = insert_desc a (sort_desc rest)

abbrev pub debt_row : ℕ × Organization → DebtRow
debt_row (id, o) = record { id = id; name = o.name; balance_due = o.balance_due }

unfoldable pub debts : World → List DebtRow
unfolding sort_desc
debts w = map debt_row (
    sort_desc (λ p. p.1.balance_due)
      (find_many (λ (o : Organization). ltb 0 o.balance_due) w.organizations))

abbrev pub figures : Table Order → List MasterRow → List DriverRow → Figures
figures orders masters drivers =
    let fees = sum_by (λ r. r.master_fee) masters in
    let driver_fees = sum_by (λ r. r.driver_fee) drivers in
    record {
      total_orders = length orders;
      total_revenue = revenue orders;
      total_master_fees = fees;
      total_driver_fees = driver_fees;
      boss_profit = pos (revenue orders) -ℤ pos fees -ℤ pos driver_fees;
    }

unfoldable pub report_of : Table Order → World → Report
unfolding debts sort_asc
report_of orders w = record {
  daily_revenue = sort_asc (λ p. p.0) (daily_map orders);
  summary = figures orders (values (master_map w orders)) (values (driver_map w orders));
  master_breakdown = values (master_map w orders);
  driver_breakdown = values (driver_map w orders);
  organization_debts = debts w;
}

unfoldable pub get_reports : Filters → Exec World Report
get_reports f = do
  from ← or_throw f.from (bad_request bad_period)
  to ← or_throw f.to (bad_request bad_period)
  gets (λ w. report_of (reported f from (end_of_day to) w) w)

-- `summary` of getMasterReport
pub record MasterSummary : Type 0 where
  pub orders_count : ℕ
  pub total_revenue : ℕ
  pub master_fee : ℕ

abbrev pub is_his : ℕ → ℕ → ℕ → Order → Bool
is_his master_id from to o =
    o.master_id == master_id && same_status o.status completed && in_period from to o.completed_at

abbrev pub master_summary : Table Order → World → MasterSummary
master_summary orders w = record {
  orders_count = length orders;
  total_revenue = revenue orders;
  master_fee = sum_by (λ p. paid master_fee p.0 w.transactions) orders;
}

-- `user.findFirst({ where: { id, role: master } })`
abbrev pub as_master : Option User → Option User
as_master none = none
as_master (some u) = if is_master_role u.role then some u else none

unfoldable pub get_master_report : ℕ → Option ℕ → Option ℕ → Exec World MasterSummary
get_master_report master_id from_date to_date = do
  found ← gets (λ w. as_master (lookup master_id w.users))
  user ← or_throw found (not_found user_missing)
  from ← or_throw from_date (bad_request bad_period)
  to ← or_throw to_date (bad_request bad_period)
  gets (λ w. master_summary (find_many (is_his master_id from (end_of_day to)) w.orders) w)
