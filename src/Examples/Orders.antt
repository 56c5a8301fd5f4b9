-- ===== src/Examples/Orders.antt =====
-- The theorems on orders at the shop's orders.
use ustabobo_bot.Base.{◌≡◌, refl, some, List, [], ◌∷◌, map}
use ustabobo_bot.Base.Int.{pos, ◌+ℤ◌}
use ustabobo_bot.Base.Table.{lookup, modify, find_first, find_many}
use ustabobo_bot.Base.Exec.{err, conflict, already_taken}
use ustabobo_bot.Schema.{Env, Order, received_by_driver, Settlement, master, driver}
use ustabobo_bot.OrderStatusMachine.{can_transition}
use ustabobo_bot.PriceCalculator.{calculate_order_total, for_total, OrderItemForTotal}
use ustabobo_bot.Examples.Shop.{shop, staff, env_at, request}
use ustabobo_bot.PriceCalculator.{items_total}
use ustabobo_bot.Orders.{totals_of}
use ustabobo_bot.Orders.Draft.{
  create_draft, check_organization, check_items, item_data, number_rows,
}
use ustabobo_bot.Orders.Location.{set_location}
use ustabobo_bot.Orders.Work.{confirm}
use ustabobo_bot.Orders.Delivery.{driver_accept}
use ustabobo_bot.Orders.Figures.{settle}
use ustabobo_bot.Orders.Lifecycle.{Change}
use ustabobo_bot.Orders.Ledger.{Posting}
use ustabobo_bot.Orders.Requests.{Request, serve, serve_all}
use ustabobo_bot.Orders.Requests.Validity.{
  IsValid, AreFresh, serve-Change, serve_all-IsValid, final-serve_all,
}
use ustabobo_bot.Orders.Requests.Money.{serve_all-Posting}
use ustabobo_bot.Orders.Requests.Races.{driver_accept-once}
use ustabobo_bot.Examples.Waiting.{
  waiting_row, items, with_order, offered_row, closed_row, cancellation,
}

-- a morning: a draft, its location, its confirmation, and a driver who takes it
abbrev morning : List (Env × Request)
morning =
    (env_at 5 100, Request.create_draft 2 request)
    ∷ (env_at 6 500, Request.set_location 100 2 (pos 41) (pos 69))
    ∷ (env_at 7 600, Request.confirm 100 2)
    ∷ (env_at 8 700, Request.driver_accept 100 4)
    ∷ []

morning-AreFresh : AreFresh morning shop
unfolding serve create_draft check_organization check_items item_data number_rows set_location
    confirm driver_accept find_first lookup can_transition modify find_many ◌+ℤ◌
    calculate_order_total items_total totals_of
morning-AreFresh = (refl, (refl, (refl, (refl, tt))))

shop-IsValid : IsValid shop
shop-IsValid = record { keyed = tt; sound = tt }

closed-IsValid : IsValid (with_order closed_row)
unfolding lookup
closed-IsValid = record {
  keyed = (refl, tt);
  sound = (
    record { token_waits = refl; end_dated = refl; driver_known = λ h. refl; not_accepted = refl },
    tt,
  );
}

serve_all-IsValid_example : IsValid (serve_all morning shop)
serve_all-IsValid_example = serve_all-IsValid morning shop morning-AreFresh shop-IsValid

serve_all-Posting_example : Posting shop (serve_all morning shop)
serve_all-Posting_example = serve_all-Posting morning shop

serve-Change_example : Change 100 shop (serve (env_at 5 100) (Request.create_draft 2 request) shop)
serve-Change_example =
    serve-Change (env_at 5 100) (Request.create_draft 2 request) shop shop-IsValid

final-serve_all_example :
    lookup 100 (serve_all cancellation (with_order closed_row)).orders ≡ some closed_row
unfolding lookup
final-serve_all_example =
    final-serve_all cancellation (with_order closed_row) 100 (refl, tt) closed-IsValid refl tt

driver_accept-once_example :
    ((o' : Order) × (lookup 100 (driver_accept 100 4 (with_order offered_row)).1.orders ≡ some o')
      × (o'.driver_id ≡ some 4)
      × (o'.status ≡ received_by_driver))
    × (driver_accept 100 5 (driver_accept 100 4 (with_order offered_row)).1
        ≡ (err (conflict already_taken), (driver_accept 100 4 (with_order offered_row)).1))
unfolding driver_accept lookup modify
driver_accept-once_example =
    driver_accept-once 100 4 5 (with_order offered_row)
      (some (record offered_row { driver_id = some 4; status = received_by_driver })) refl

abbrev figures_of : Settlement
figures_of = settle waiting_row items (staff master 300_000) (some (staff driver 500_000))

abbrev two_lines : List OrderItemForTotal
two_lines = map (λ (_, i). for_total i) items
