-- ===== src/Reports/Overall/Rows.antt =====
-- A master's own report says the same as his row of the common one.
use ustabobo_bot.Base.{
  ℕ, ◌+◌, ◌≡◌, refl, ◌∙◌, true, none, some, List, [], ◌∷◌, ◌==◌, if◌then◌else◌, sum_by, All, arith,
}
use ustabobo_bot.Base.Table.{Table, lookup, find_many}
use ustabobo_bot.Base.Exec.{ok}
use ustabobo_bot.Schema.{World, Order, User, master_fee}
use ustabobo_bot.AdminOrders.{is_master_role}
use ustabobo_bot.Reports.{end_of_day, paid}
use ustabobo_bot.Reports.Groups.{group_into, values, upsert, figure_at}
use ustabobo_bot.Reports.Groups.Laws.{group-figure_at}
use ustabobo_bot.Reports.Overall.Laws.{ids-IsEquality, ones}
use ustabobo_bot.Reports.Overall.{
  Filters, MasterRow, Report, get_reports, is_reported, reported, master_key, fresh_master,
  add_to_master, master_map, report_of, MasterSummary, is_his, master_summary, get_master_report,
}

-- a figure of a master's row in the breakdown; 0 where he has none
abbrev pub row_figure : (MasterRow → ℕ) → ℕ → List MasterRow → ℕ
row_figure g m [] = 0
row_figure g m (r ∷ rest) = if r.master_id == m then g r else row_figure g m rest

abbrev pub AreNamed : List (ℕ × MasterRow) → Type 0
AreNamed rows = All (λ p. p.1.master_id ≡ p.0) rows

module _ (w : World) where
  upsert-AreNamed :
      (p : ℕ × Order) (rows : List (ℕ × MasterRow))
      → AreNamed rows
      → AreNamed (upsert ◌==◌ p.1.master_id (fresh_master w p) (add_to_master w p) rows)
  unfolding upsert
  upsert-AreNamed p [] h = (refl, tt)
  upsert-AreNamed p ((k, r) ∷ rest) h = ground (arith, upsert-AreNamed p rest h.1)

  group_into-AreNamed :
      (orders : Table Order) (rows : List (ℕ × MasterRow))
      → AreNamed rows
      → AreNamed (group_into ◌==◌ (master_key w) (fresh_master w) (add_to_master w) orders rows)
  unfolding group_into
  group_into-AreNamed [] rows h = h
  group_into-AreNamed (p ∷ rest) rows h = group_into-AreNamed rest _ (upsert-AreNamed p rows h)

row_figure-values :
    (g : MasterRow → ℕ) (m : ℕ) (rows : List (ℕ × MasterRow))
    → AreNamed rows
    → row_figure g m (values rows) ≡ figure_at ◌==◌ g m rows
unfolding values figure_at
row_figure-values g m [] h = refl
row_figure-values g m ((k, r) ∷ rest) h = ground (arith, row_figure-values g m rest h.1)

-- the filters of a report on all masters
abbrev pub everyone : ℕ → ℕ → Filters
everyone from to = record { from = some from; to = some to; master_id = none; org_id = none }

his_share :
    (m from to : ℕ) (δ : ℕ × Order → ℕ) (t : Table Order)
    → sum_by
        (λ p. if p.1.master_id == m then δ p else 0)
        (find_many (is_reported (everyone from to) from (end_of_day to)) t)
      ≡ sum_by δ (find_many (is_his m from (end_of_day to)) t)
unfolding find_many
his_share m from to δ [] = refl
his_share m from to δ ((k, o) ∷ t) = ground (arith, his_share m from to δ t)

module _ (m from to : ℕ) (w : World) (g : MasterRow → ℕ) (δ : ℕ × Order → ℕ)
    (empty : (p : ℕ × Order) → g (fresh_master w p) ≡ 0)
    (adds : (p : ℕ × Order) (r : MasterRow) → g (add_to_master w p r) ≡ g r + δ p) where
  master_row :
      row_figure g m
        (report_of (reported (everyone from to) from (end_of_day to) w) w).master_breakdown
      ≡ sum_by δ (find_many (is_his m from (end_of_day to)) w.orders)
  unfolding report_of master_map reported
  master_row =
      let orders = reported (everyone from to) from (end_of_day to) w in
      let named = group_into-AreNamed w orders [] tt in
      row_figure-values g m _ named
      ∙ group-figure_at ◌==◌ (master_key w) (fresh_master w) (add_to_master w) g δ empty adds orders
          m ids-IsEquality
      ∙ his_share m from to δ w.orders

-- a master's summary, and his row in the breakdown of a report
pub record Agrees (m : ℕ) (rows : List MasterRow) (s : MasterSummary) : Type 0 where
  pub same_orders : row_figure (λ r. r.orders_count) m rows ≡ s.orders_count
  pub same_revenue : row_figure (λ r. r.total_revenue) m rows ≡ s.total_revenue
  pub same_fee : row_figure (λ r. r.master_fee) m rows ≡ s.master_fee

-- For every master and any two dates getMasterReport gives a summary, and its three figures are those
-- of his row in the breakdown of getReports for the same dates and all masters.
pub get_master_report-Agrees :
    (m from to : ℕ) (w : World) {u : User}
    → lookup m w.users ≡ some u
    → is_master_role u.role ≡ true
    → (s : MasterSummary) × (r : Report) × (get_master_report m (some from) (some to) w ≡ (ok s, w))
      × (get_reports (everyone from to) w ≡ (ok r, w))
      × Agrees m r.master_breakdown s
unfolding get_master_report get_reports
get_master_report-Agrees m from to w {u} known is_one =
    let his = find_many (is_his m from (end_of_day to)) w.orders in
    (
      master_summary his w,
      report_of (reported (everyone from to) from (end_of_day to) w) w,
      ground arith,
      refl,
      record {
        same_orders =
            master_row m from to w (λ r. r.orders_count) (λ _. 1) (λ p. refl) (λ p r. ground arith)
            ∙ ones his;
        same_revenue =
            master_row m from to w (λ r. r.total_revenue) (λ p. p.1.total_amount) (λ p. refl)
              (λ p r. refl);
        same_fee =
            master_row m from to w (λ r. r.master_fee) (λ p. paid master_fee p.0 w.transactions)
              (λ p. refl) (λ p r. refl);
      },
    )
