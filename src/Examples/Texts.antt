-- ===== src/Examples/Texts.antt =====
-- Texts in the chat, the lists that answer them, and the reports, at a small database.
use ustabobo_bot.Base.{
  ℕ, ◌≡◌, ◌≢◌, ◌+◌, ◌*◌, Bool, refl, true, false, Option, some, List, [], ◌∷◌, arith,
}
use ustabobo_bot.Base.Int.{ℤ, pos}
use ustabobo_bot.Base.Table.{Table, lookup, find_many}
use ustabobo_bot.Base.Pages.{page, take, drop}
use ustabobo_bot.Schema.{World, Text, Order, User, master, cancelled}
use ustabobo_bot.Text.{codes, trim}
use ustabobo_bot.Orders.Draft.{draft_order}
use ustabobo_bot.Orders.Queries.{newest_first, insert_newest}
use ustabobo_bot.Examples.Shop.{shop, staff, env_at, request}
use ustabobo_bot.Bot.Session.{Dialogue, PendingService, for_name, session_of}
use ustabobo_bot.Bot.Texts.{on_text, on_message}
use ustabobo_bot.Bot.Texts.Menus.{OnlyAnswers, on_text-OnlyAnswers}
use ustabobo_bot.Reports.History.{
  ClientInfo, client_page, history_of, get_clients_history, is_in_history, amounts, amounts_done,
  daily_report,
}
use ustabobo_bot.Reports.History.Spent.{amounts_open, get_clients_history-spent}
use ustabobo_bot.Reports.History.Daily.{daily_report-between}
use ustabobo_bot.Organizations.Calls.{
  FleetCall, enter_vehicle, toggle_vehicle, delete, run_all, HaveOwner,
}
use ustabobo_bot.Organizations.Vehicles.{run_all-HaveOwner}

-- the master's draft, in his chat, where the name of a service is waited for
abbrev its_master : User
its_master = record (staff master 300_000) { last_authenticated_at = some 1_000 }

abbrev draft_row : Order
draft_row = record (draft_order (env_at 5 100) 2 request) { delivery_needed = false }

abbrev with_draft : World
with_draft = record shop { users = (2, its_master) ∷ []; orders = (100, draft_row) ∷ [] }

abbrev question : PendingService
question = record { order = codes "a1"; chat = 7; message = 8; step = for_name }

abbrev asking : Dialogue
asking = record {
  world = with_draft;
  pending = (300_000, question) ∷ [];
  replies = [];
  in_auth_scene = false;
}

abbrev id_of : Text → Option ℕ
id_of s = some 100

abbrev read_number : Text → Option ℤ
read_number s = some (pos 15_000)

-- the state after the messages with the name and the price
abbrev answered : Bool → Dialogue
answered hands_on =
    on_message id_of read_number hands_on (env_at 2_000 300) (some 300_000) (codes "150") (
      on_message id_of read_number hands_on (env_at 2_000 300) (some 300_000) (codes " Moy ")
        asking)

on_text-OnlyAnswers_example :
    OnlyAnswers
      (session_of 2_000 (some 300_000) with_draft)
      asking
      (on_text 2_000 (some 300_000) (codes "Bugungi hisobot") asking)
on_text-OnlyAnswers_example = on_text-OnlyAnswers 2_000 300_000 (codes "Bugungi hisobot") asking

abbrev closed_orders : Table Order
closed_orders = (100, record draft_row { status = cancelled; total_amount = 70 }) ∷ []

-- a client whose only order was cancelled
abbrev given_up : World
given_up = record shop { orders = closed_orders }

abbrev no_match : Text → Text → Bool
no_match s t = true

abbrev his_info : ClientInfo
his_info = record {
  client_name = draft_row.client_name;
  client_phone = draft_row.client_phone;
  total_orders = 1;
  total_spent = 70;
}

get_clients_history-spent_example :
    70
    ≡ amounts_done (history_of no_match [] (codes "A") given_up)
      + amounts_open (history_of no_match [] (codes "A") given_up)
unfolding page take drop find_many newest_first insert_newest amounts get_clients_history
    is_in_history amounts_done amounts_open trim
get_clients_history-spent_example =
    get_clients_history-spent no_match [] (codes "A") 1 20 given_up
      (client_page (history_of no_match [] (codes "A") given_up) 1 20) his_info refl refl

-- an order made at 15:00 of the first day, and the report of the second
abbrev missed : Order
missed = record draft_row { created_at = 15 * 3_600_000 }

daily_report-between_example :
    lookup 100 (daily_report (38 * 3_600_000) (record shop { orders = (100, missed) ∷ [] })).orders
    ≢ some missed
daily_report-between_example =
    daily_report-between (38 * 3_600_000) 100 (record shop { orders = (100, missed) ∷ [] }) missed
      refl (omega arith) (omega arith, omega arith)

abbrev fleet_calls : List FleetCall
fleet_calls =
    enter_vehicle (env_at 1 700) 10 (record { plate_number = codes "01A123AA"; model = [] })
    ∷ enter_vehicle (env_at 1 800) 11 (record { plate_number = []; model = [] })
    ∷ toggle_vehicle 700
    ∷ delete 30
    ∷ []

run_all-HaveOwner_example :
    HaveOwner (run_all fleet_calls shop).organizations (run_all fleet_calls shop).vehicles
unfolding lookup
run_all-HaveOwner_example = run_all-HaveOwner fleet_calls shop (refl, tt)
