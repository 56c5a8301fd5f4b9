-- ===== src/Examples/Confirmation.antt =====
-- The theorems on a confirmation at an order that waits for its customer.
use ustabobo_bot.Base.{◌+◌, ◌≡◌, refl, ◌⊎◌, some, [], ◌∷◌, arith}
use ustabobo_bot.Base.Int.{◌+ℤ◌, ◌-ℤ◌}
use ustabobo_bot.Base.Table.{lookup, modify, find_first, find_many}
use ustabobo_bot.Base.Exec.{ok, err, Error, not_found, unique_violation, bad_token, transaction}
use ustabobo_bot.Prisma.{items_of, find_entry}
use ustabobo_bot.Examples.Shop.{env_at}
use ustabobo_bot.Orders.Figures.{settle, fee, services_sum, read_settlement, product_items}
use ustabobo_bot.Orders.Completion.{
  complete, find_by_token, post_fees, take_stock, take_all, settle_order, check_and_alert,
  low_stock, alerts, customer_confirm,
}
use ustabobo_bot.Orders.Completion.Outcome.{Success, customer_confirm-outcome}
use ustabobo_bot.Orders.Completion.Stock.{stock_of, needed}
use ustabobo_bot.Orders.Completion.Effects.{
  confirmed, customer_confirm-stock, customer_confirm-once,
}
use ustabobo_bot.Orders.Requests.{serve_all}
use ustabobo_bot.Orders.Requests.Races.{customer_confirm-race}
use ustabobo_bot.Examples.Waiting.{waiting_row, waiting, figures, at_eight, cancellation}
use ustabobo_bot.Orders.Completion.Progress.{IsPayable, customer_confirm-ok}

confirmation : Success at_eight 300 waiting
unfolding customer_confirm find_by_token read_settlement settle fee services_sum product_items
    items_of settle_order post_fees find_entry find_first lookup modify find_many take_stock
    take_all check_and_alert low_stock alerts ◌+ℤ◌ ◌-ℤ◌
confirmation = record {
  id = 100;
  order = waiting_row;
  lines = (40, 2) ∷ [];
  figures = figures;
  found = refl;
  was_read = refl;
  settled = refl;
  after = refl;
}

customer_confirm-outcome_example :
    Success at_eight 300 waiting
    ⊎ ((e : Error) × (customer_confirm at_eight 300 waiting ≡ (err e, waiting)))
customer_confirm-outcome_example = customer_confirm-outcome at_eight 300 waiting

customer_confirm-stock_example :
    stock_of 40 (confirmed at_eight 300 waiting confirmation) + needed 40 confirmation.lines
    ≡ stock_of 40 waiting
customer_confirm-stock_example = customer_confirm-stock at_eight 300 waiting confirmation 40

customer_confirm-once_example :
    customer_confirm (env_at 9 500) 300 (confirmed at_eight 300 waiting confirmation)
    ≡ (err (not_found bad_token), confirmed at_eight 300 waiting confirmation)
unfolding find_many lookup confirmation
customer_confirm-once_example =
    customer_confirm-once at_eight 300 waiting confirmation (env_at 9 500) (refl, tt) refl

customer_confirm-race_example :
    transaction
      (settle_order
        (env_at 9 500)
        confirmation.id
        confirmation.order
        confirmation.lines
        confirmation.figures)
      (serve_all cancellation (confirmed at_eight 300 waiting confirmation))
    ≡ (err unique_violation, serve_all cancellation (confirmed at_eight 300 waiting confirmation))
customer_confirm-race_example =
    customer_confirm-race at_eight 300 waiting confirmation cancellation (env_at 9 500)

waiting-IsPayable : IsPayable 100 waiting_row waiting
unfolding lookup find_entry find_first
waiting-IsPayable = record {
  master_known = refl;
  driver_known = refl;
  organization_known = refl;
  master_unpaid = refl;
  driver_unpaid = refl;
}

customer_confirm-ok_example :
    (customer_confirm at_eight 300 waiting).0 ≡ ok (some (complete 8 waiting_row))
unfolding find_first lookup product_items items_of find_many
customer_confirm-ok_example =
    customer_confirm-ok at_eight 300 waiting 100 waiting_row (refl, tt) refl waiting-IsPayable
      (refl, tt) (λ p. ground arith)
