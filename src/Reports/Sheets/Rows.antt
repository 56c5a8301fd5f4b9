-- ===== src/Reports/Sheets/Rows.antt =====
-- What the rows of the spreadsheets come to.
use ustabobo_bot.Base.{
  ℕ, ◌≤◌, ◌≡◌, refl, leb, some, List, [], ◌∷◌, map, sum_by, arith, ap, ◌∙◌, sym, subst, All,
  Bool-cases, inl, inr,
}
use ustabobo_bot.Base.Table.{Table, find_many}
use ustabobo_bot.Base.Exec.{ok}
use ustabobo_bot.Schema.{World, Order}
use ustabobo_bot.Reports.{end_of_day}
use ustabobo_bot.Reports.Overall.{sort_asc, insert_asc}
use ustabobo_bot.Reports.Overall.Laws.{sort_asc-sum}
use ustabobo_bot.Bot.Lists.{created_in, revenue_of, rows}
use ustabobo_bot.Reports.Sheets.{OrderRow, order_row, oldest_first, get_orders_report}

-- all rows are of this time or later
abbrev pub IsAfter : ℕ → List OrderRow → Type 0
IsAfter t = All (λ (r : OrderRow). t ≤ r.created_at)

-- no row before an older one
abbrev pub IsAscending : List OrderRow → Type 0
IsAscending [] = Unit
IsAscending (r ∷ rest) = IsAfter r.created_at rest × IsAscending rest

module _ (w : World) where
  lines : Table Order → List OrderRow
  lines = map (order_row w)

  insert : ℕ × Order → Table Order → Table Order
  insert = insert_asc (λ r. r.1.created_at)

  insert-IsAfter :
      (t k : ℕ) (o : Order) (s : Table Order)
      → t ≤ o.created_at
      → IsAfter t (lines s)
      → IsAfter t (lines (insert (k, o) s))
  unfolding lines insert insert_asc
  insert-IsAfter t k o [] small h = (small, tt)
  insert-IsAfter t k o ((j, p) ∷ s) small h = elim (Bool-cases (leb o.created_at p.created_at)) [
    | inl first ↦ rw first (small, h)
    | inr later ↦ rw later (h.0, insert-IsAfter t k o s small h.1)
  ]

  IsAfter-earlier : (t u : ℕ) (s : List OrderRow) → t ≤ u → IsAfter u s → IsAfter t s
  IsAfter-earlier t u [] less h = tt
  IsAfter-earlier t u (r ∷ s) less h = (omega (arith, less, h.0), IsAfter-earlier t u s less h.1)

  insert-IsAscending :
      (k : ℕ) (o : Order) (s : Table Order)
      → IsAscending (lines s)
      → IsAscending (lines (insert (k, o) s))
  unfolding lines insert insert_asc
  insert-IsAscending k o [] h = (tt, tt)
  insert-IsAscending k o ((j, p) ∷ s) h = elim (Bool-cases (leb o.created_at p.created_at)) [
    | inl first ↦
        let less : o.created_at ≤ p.created_at = ground arith in
        rw first ((less, IsAfter-earlier o.created_at p.created_at (lines s) less h.0), h)
    | inr later ↦
        rw later
          (insert-IsAfter p.created_at k o s (ground arith) h.0, insert-IsAscending k o s h.1)
  ]

  oldest_first-IsAscending : (t : Table Order) → IsAscending (lines (oldest_first t))
  unfolding sort_asc lines insert
  oldest_first-IsAscending [] = tt
  oldest_first-IsAscending ((k, o) ∷ t) =
      insert-IsAscending k o (oldest_first t) (oldest_first-IsAscending t)

  lines-sum :
      (t : Table Order)
      → sum_by (λ (r : OrderRow). r.total_amount) (lines t)
        ≡ sum_by (λ (r : ℕ × Order). r.1.total_amount) t
  unfolding lines
  lines-sum [] = refl
  lines-sum ((k, o) ∷ t) = omega (arith, lines-sum t)

  rows-sum :
      (t : Table Order)
      → sum_by (λ (r : ℕ × Order). r.1.total_amount) t
        ≡ sum_by (λ (o : Order). o.total_amount) (rows t)
  rows-sum [] = refl
  rows-sum ((k, o) ∷ t) = omega (arith, rows-sum t)

-- The report of the orders of a period has their rows from the oldest to the newest, and the amounts
-- of its rows add up to what the orders created in the period cost, the whole last day included.
pub get_orders_report-total :
    (from to : ℕ) (w : World) (rs : List OrderRow)
    → (get_orders_report (some from) (some to) w).0 ≡ ok rs
    → IsAscending rs
      × (sum_by (λ (r : OrderRow). r.total_amount) rs
          ≡ revenue_of (created_in from (end_of_day to)) w)
unfolding get_orders_report lines
get_orders_report-total from to w rs done =
    let found = find_many (created_in from (end_of_day to)) w.orders in
    let same : lines w (oldest_first found) ≡ rs = ground arith in
    (
      subst IsAscending same (oldest_first-IsAscending w found),
      ap (sum_by (λ (r : OrderRow). r.total_amount)) (sym same)
          ∙ lines-sum w (oldest_first found)
          ∙ sort_asc-sum (λ r. r.1.created_at) (λ r. r.1.total_amount) found
          ∙ rows-sum w found,
    )
