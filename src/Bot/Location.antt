-- ===== src/Bot/Location.antt =====
-- src/bot/bot.update.ts: onLocation, the location that a master sends for his draft, and the question
-- with the order's total that it leads to. The order that addLocationToDraft returns is the draft that
-- the handler has found, since both make the same two queries; its id is taken from there.
pub mod Quote
use ustabobo_bot.Base.{ℕ, not, Option, none, some, if◌then◌else◌}
use ustabobo_bot.Base.Int.{ℤ}
use ustabobo_bot.Base.Table.{Table, lookup}
use ustabobo_bot.Base.Exec.{Result, ok, err}
use ustabobo_bot.Schema.{World, Order, User}
use ustabobo_bot.PriceCalculator.{calculate_order_total}
use ustabobo_bot.Orders.{totals_of}
use ustabobo_bot.Orders.Location.{latest, is_draft_of, add_location_to_draft}
use ustabobo_bot.Bot.Session.{
  Dialogue, say, require_auth, location_missing, no_draft, no_delivery, not_saved, order_gone,
  location_failed, ask_total,
}

-- the total is computed again from the stored items
abbrev pub quote_total : Option Order → ℕ → Dialogue → Dialogue
quote_total none id d = say order_gone d
quote_total (some o) id d =
    say (ask_total id (calculate_order_total (totals_of id d.world) o.delivery_needed)) d

abbrev pub after_location : ℕ → Result (Option Order) × World → Dialogue → Dialogue
after_location id (err _, w) d = say location_failed (record d { world = w })
after_location id (ok none, w) d = say not_saved (record d { world = w })
after_location id (ok (some _), w) d = quote_total (lookup id w.orders) id (record d { world = w })

abbrev pub for_draft : ℕ → ℤ × ℤ → Option (ℕ × Order) → Dialogue → Dialogue
for_draft tg place none d = say no_draft d
for_draft tg (lat, lng) (some (id, o)) d =
    if not o.delivery_needed
    then say no_delivery d
    else after_location id (add_location_to_draft tg lat lng d.world) d

abbrev pub with_place : ℕ → ℕ → Option (ℤ × ℤ) → Dialogue → Dialogue
with_place tg user none d = say location_missing d
with_place tg user (some place) d = for_draft tg place (latest (is_draft_of user) d.world.orders) d

abbrev pub signed_location : Option ℕ → Option (ℤ × ℤ) → Option (ℕ × User) × Dialogue → Dialogue
signed_location tg place (none, d) = d
signed_location none place (some _, d) = d
signed_location (some tg) place (some (user, _), d) = with_place tg user place d

unfoldable pub on_location : ℕ → Option ℕ → Option (ℤ × ℤ) → Dialogue → Dialogue
unfolding require_auth latest totals_of
on_location now tg place d = signed_location tg place (require_auth now tg d)
