-- ===== src/Examples/Waiting.antt =====
-- Orders of the shop that wait for the customer, for a driver, or are over.
use ustabobo_bot.Base.{none, some, List, [], ◌∷◌}
use ustabobo_bot.Base.Int.{pos}
use ustabobo_bot.Base.Table.{Table}
use ustabobo_bot.Schema.{
  World, Env, Order, OrderItem, broadcasted, waiting_customer_confirmation, Settlement, product,
  service,
}
use ustabobo_bot.Examples.Shop.{shop, env_at, request}
use ustabobo_bot.Orders.Draft.{draft_order}
use ustabobo_bot.Orders.Completion.{complete}
use ustabobo_bot.Orders.Requests.{Request}

-- an order that waits for its customer, one that a driver may take, one that is over
abbrev pub waiting_row : Order
waiting_row = record (draft_order (env_at 5 100) 2 request) {
  status = waiting_customer_confirmation;
  driver_id = some 4;
  total_amount = 23_000_000;
  confirm_token = some 300;
}

abbrev pub items : Table OrderItem
items =
    (
      101,
      record {
        order_id = 100;
        item_type = service;
        product_id = none;
        service_id = some 30;
        item_name = none;
        quantity = 1;
        price_at_time = 10_000_000;
      },
    )
    ∷ (
      102,
      record {
        order_id = 100;
        item_type = product;
        product_id = some 40;
        service_id = none;
        item_name = none;
        quantity = 2;
        price_at_time = 5_000_000;
      },
    )
    ∷ []

abbrev pub with_order : Order → World
with_order o = record shop { orders = (100, o) ∷ []; order_items = items }

abbrev pub waiting : World
waiting = with_order waiting_row

abbrev pub offered_row : Order
offered_row = record waiting_row { status = broadcasted; driver_id = none; confirm_token = none }

abbrev pub closed_row : Order
closed_row = complete 8 waiting_row

abbrev pub figures : Settlement
figures = record {
  usta_haqi = 3_000_000;
  kuryer_haqi = 1_500_000;
  boss_foyda = pos 18_500_000;
  total_amount = 23_000_000;
  services_sum = 10_000_000;
  delivery_fee_sum = 3_000_000;
  organization_balance_added = some 23_000_000;
}

abbrev pub at_eight : Env
at_eight = env_at 8 400

abbrev pub cancellation : List (Env × Request)
cancellation = (env_at 9 500, Request.cancel_order 100 2) ∷ []
