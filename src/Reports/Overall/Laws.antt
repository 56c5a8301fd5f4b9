-- ===== src/Reports/Overall/Laws.antt =====
-- The parts of a report add up to its whole, and a master's own report says the same as his row.
use ustabobo_bot.Base.{
  ℕ, ◌+◌, ◌≡◌, refl, ◌∙◌, true, some, List, [], ◌∷◌, ◌==◌, if◌then◌else◌, is_some, length, sum_by,
  All, arith,
}
use ustabobo_bot.Base.Int.{pos, ◌-ℤ◌}
use ustabobo_bot.Base.Table.{Table, find_many}
use ustabobo_bot.Base.Exec.{ok}
use ustabobo_bot.Schema.{World, Order, master_fee, driver_fee}
use ustabobo_bot.Reports.{end_of_day, paid}
use ustabobo_bot.Reports.Groups.{values}
use ustabobo_bot.Reports.Groups.Laws.{IsEquality, brings, group-sum}
use ustabobo_bot.Reports.Overall.{
  Filters, MasterRow, Report, is_reported, reported, revenue, master_key, fresh_master,
  add_to_master, master_map, driver_key, fresh_driver, add_to_driver, driver_map, day_key,
  daily_map, insert_asc, sort_asc, report_of, get_reports,
}

pub ids-IsEquality : IsEquality ◌==◌
ids-IsEquality = record { reflexive = λ k. ground arith; exact = λ j k h. ground arith }

module _ {A : Type 0} (figure g : A → ℕ) where
  insert_asc-sum : (a : A) (xs : List A) → sum_by g (insert_asc figure a xs) ≡ g a + sum_by g xs
  unfolding insert_asc
  insert_asc-sum a [] = refl
  insert_asc-sum a (b ∷ xs) = ground (arith, insert_asc-sum a xs)

  pub sort_asc-sum : (xs : List A) → sum_by g (sort_asc figure xs) ≡ sum_by g xs
  unfolding sort_asc
  sort_asc-sum [] = refl
  sort_asc-sum (a ∷ xs) = ground (arith, insert_asc-sum a (sort_asc figure xs), sort_asc-sum xs)

-- the fee of an order that has a driver
abbrev pub delivery_paid : World → ℕ × Order → ℕ
delivery_paid w p = if is_some p.1.driver_id then paid driver_fee p.0 w.transactions else 0

-- what a report says about the orders that it covers
pub record AddsUp (orders : Table Order) (w : World) (r : Report) : Type 0 where
  pub all_orders : r.summary.total_orders ≡ length orders
  pub all_revenue : r.summary.total_revenue ≡ revenue orders
  pub masters_orders : sum_by (λ m. m.orders_count) r.master_breakdown ≡ length orders
  pub masters_revenue : sum_by (λ m. m.total_revenue) r.master_breakdown ≡ revenue orders
  pub days_revenue : sum_by (λ d. d.1) r.daily_revenue ≡ revenue orders
  pub master_fees :
      r.summary.total_master_fees ≡ sum_by (λ p. paid master_fee p.0 w.transactions) orders
  pub driver_fees : r.summary.total_driver_fees ≡ sum_by (delivery_paid w) orders
  pub profit :
      r.summary.boss_profit
      ≡ pos (revenue orders)
        -ℤ pos (sum_by (λ p. paid master_fee p.0 w.transactions) orders)
        -ℤ pos (sum_by (delivery_paid w) orders)

abbrev pub AreDated : Table Order → Type 0
AreDated orders = All (λ p. is_some p.1.completed_at ≡ true) orders

module _ {A : Type 0} where
  pub ones : (xs : List A) → sum_by (λ _. 1) xs ≡ length xs
  ones [] = refl
  ones (_ ∷ xs) = ground (arith, ones xs)

  pub everywhere : {P : A → Type 0} → ((a : A) → P a) → (xs : List A) → All P xs
  everywhere f [] = tt
  everywhere f (a ∷ xs) = (f a, everywhere f xs)

module _ (w : World) where
  masters_sum :
      (g : MasterRow → ℕ) (δ : ℕ × Order → ℕ) (orders : Table Order)
      → ((p : ℕ × Order) → g (fresh_master w p) ≡ 0)
      → ((p : ℕ × Order) (r : MasterRow) → g (add_to_master w p r) ≡ g r + δ p)
      → sum_by g (values (master_map w orders)) ≡ sum_by δ orders
  unfolding master_map
  masters_sum g δ orders empty adds =
      group-sum ◌==◌ (master_key w) (fresh_master w) (add_to_master w) g δ empty adds orders δ
        (everywhere (λ p. refl) orders)

  master_fees_sum :
      (orders : Table Order)
      → sum_by (λ m. m.master_fee) (values (master_map w orders))
        ≡ sum_by (λ p. paid master_fee p.0 w.transactions) orders
  master_fees_sum orders =
      masters_sum (λ m. m.master_fee) (λ p. paid master_fee p.0 w.transactions) orders (λ p. refl)
        (λ p r. refl)

  drivers_sum :
      (orders : Table Order)
      → sum_by (λ r. r.driver_fee) (values (driver_map w orders)) ≡ sum_by (delivery_paid w) orders
  unfolding driver_map
  drivers_sum orders =
      group-sum ◌==◌ (driver_key w) (fresh_driver w) (add_to_driver w) (λ r. r.driver_fee)
        (λ p. paid driver_fee p.0 w.transactions) (λ p. refl) (λ p r. refl) orders (delivery_paid w)
        (everywhere (λ p. ground arith) orders)

dated_brings :
    (orders : Table Order)
    → AreDated orders
    → All (λ a. brings day_key (λ p. p.1.total_amount) a ≡ a.1.total_amount) orders
dated_brings [] h = tt
dated_brings (p ∷ rest) h = (ground arith, dated_brings rest h.1)

second_sum : (rows : List (ℕ × ℕ)) → sum_by (λ d. d.1) rows ≡ sum_by (λ d. d) (values rows)
unfolding values
second_sum [] = refl
second_sum ((_, n) ∷ rest) = ground (arith, second_sum rest)

days_sum :
    (orders : Table Order)
    → AreDated orders
    → sum_by (λ d. d.1) (sort_asc (λ p. p.0) (daily_map orders)) ≡ revenue orders
unfolding daily_map
days_sum orders dated =
    let shared =
      group-sum ◌==◌ day_key (λ _. 0) (λ p r. r + p.1.total_amount) (λ d. d) (λ p. p.1.total_amount)
        (λ p. refl) (λ p r. refl) orders (λ p. p.1.total_amount) (dated_brings orders dated) in
    ground (
      arith,
      sort_asc-sum (λ p. p.0) (λ d. d.1) (daily_map orders),
      second_sum (daily_map orders),
      shared,
    )

reported-AreDated :
    (f : Filters) (from to : ℕ) (t : Table Order) → AreDated (find_many (is_reported f from to) t)
unfolding find_many
reported-AreDated f from to [] = tt
reported-AreDated f from to ((k, o) ∷ t) = ground (arith, reported-AreDated f from to t)

report_of-AddsUp :
    (orders : Table Order) (w : World) → AreDated orders → AddsUp orders w (report_of orders w)
unfolding report_of
report_of-AddsUp orders w dated = record {
  all_orders = refl;
  all_revenue = refl;
  masters_orders =
      masters_sum w (λ m. m.orders_count) (λ _. 1) orders (λ p. refl) (λ p r. ground arith)
      ∙ ones orders;
  masters_revenue =
      masters_sum w (λ m. m.total_revenue) (λ p. p.1.total_amount) orders (λ p. refl) (λ p r. refl);
  days_revenue = days_sum orders dated;
  master_fees = master_fees_sum w orders;
  driver_fees = drivers_sum w orders;
  profit = rw (master_fees_sum w orders, drivers_sum w orders) refl;
}

-- A report is given for every two dates, and its parts add up to the orders that it covers: the
-- masters' rows to the number of orders and the revenue, the days to the revenue, the fees to the
-- fee rows of the covered orders (a driver's only where the order has a driver); the profit is the
-- revenue less these fees.
pub get_reports-AddsUp :
    (f : Filters) (w : World) {from to : ℕ}
    → f.from ≡ some from
    → f.to ≡ some to
    → (r : Report) × (get_reports f w ≡ (ok r, w)) × AddsUp (reported f from (end_of_day to) w) w r
unfolding get_reports reported
get_reports-AddsUp f w {from} {to} begins ends =
    let orders = reported f from (end_of_day to) w in
    (
      report_of orders w,
      ground arith,
      report_of-AddsUp orders w (reported-AreDated f from (end_of_day to) w.orders),
    )
