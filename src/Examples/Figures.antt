-- ===== src/Examples/Figures.antt =====
-- The theorems on the reports at a small database.
use ustabobo_bot.Base.{◌≡◌, refl, none, some, [], ◌∷◌}
use ustabobo_bot.Base.Exec.{ok}
use ustabobo_bot.Schema.{World}
use ustabobo_bot.Orders.Draft.{draft_order}
use ustabobo_bot.Orders.Completion.{complete, master_entry, driver_entry}
use ustabobo_bot.Examples.Shop.{shop, env_at, request}
use ustabobo_bot.Reports.{end_of_day}
use ustabobo_bot.Reports.Overall.{Report, reported, get_reports}
use ustabobo_bot.Reports.Overall.Laws.{AddsUp, get_reports-AddsUp}
use ustabobo_bot.Reports.Overall.Rows.{everyone}
use ustabobo_bot.Reports.Clients.{ClientFilters}

-- one order of each master that is completed, the first with a driver, with their fees
abbrev worked : World
worked = record shop {
  transactions =
      (60, master_entry 100 2 300)
      ∷ (61, driver_entry 100 4 200)
      ∷ (62, master_entry 101 3 50)
      ∷ [];
  orders =
      (
        101,
        record (complete 9 (draft_order (env_at 6 101) 3 request)) {
          organization_id = none;
          total_amount = 70;
        },
      )
      ∷ (
        100,
        record (complete 8 (draft_order (env_at 5 100) 2 request)) {
          driver_id = some 4;
          total_amount = 900;
        },
      )
      ∷ [];
}

get_reports-AddsUp_example :
    (r : Report) × (get_reports (everyone 1 20) worked ≡ (ok r, worked))
    × AddsUp (reported (everyone 1 20) 1 (end_of_day 20) worked) worked r
get_reports-AddsUp_example = get_reports-AddsUp (everyone 1 20) worked refl refl

abbrev all_clients : ClientFilters
all_clients = record { from = none; to = none; status = none; search = [] }
