-- ===== src/Orders/Figures.antt =====
-- src/orders/orders.service.ts: the figures of customerConfirm, computed before its transaction.
pub mod Shares
use ustabobo_bot.Base.{
  ℕ, ◌+◌, ◌*◌, ◌/◌, Bool, true, false, Option, none, some, List, [], ◌∷◌, if◌then◌else◌,
}
use ustabobo_bot.Base.Int.{pos, ◌-ℤ◌}
use ustabobo_bot.Base.Table.{Table, lookup}
use ustabobo_bot.Base.Exec.{Exec, record_missing, pure, gets, or_throw, ◌>>=◌}
use ustabobo_bot.Schema.{World, Order, OrderItem, User, Settlement, OrderItemType, product, service}
use ustabobo_bot.Prisma.{items_of}
use ustabobo_bot.PriceCalculator.{delivery_price, som}

abbrev pub is_service : OrderItemType → Bool
is_service service = true
is_service _ = false

-- `.filter(item_type === service).reduce((sum, i) => sum + price_at_time * quantity, 0)`
unfoldable pub services_sum : ℕ → Table OrderItem → ℕ
services_sum sum [] = sum
services_sum sum ((_, i) ∷ rest) =
    services_sum (if is_service i.item_type then sum + i.price_at_time * i.quantity else sum) rest

-- `Math.round((sum * percent) / 100)`: whole so'm, rounded half up. `sum` is in hundredths and
-- `percent` in ten-thousandths, so the quotient is by 100 * 100 * 10 000. It
-- is exact here, and of floating point in the source.
unfoldable pub fee : ℕ → ℕ → ℕ
fee sum percent = (sum * percent + 50_000_000) / 100_000_000 * som

-- the driver's row, as `include: { driver: true }` reads it
abbrev pub driver_of : Option ℕ → World → Option User
driver_of none w = none
driver_of (some d) w = lookup d w.users

abbrev pub delivery_of : Bool → ℕ
delivery_of needed = if needed then delivery_price else 0

-- `kuryerHaqi`: 0 unless the order has a driver
abbrev pub driver_share : Option User → ℕ → ℕ
driver_share none sum = 0
driver_share (some u) sum = fee sum u.percent_rate

abbrev pub for_organization : Option ℕ → ℕ → Option ℕ
for_organization none total = none
for_organization (some _) total = some total

-- the figures that the handler computes before the transaction
unfoldable pub settle : Order → Table OrderItem → User → Option User → Settlement
settle o items master_row driver_row =
    let sum = services_sum 0 items in
    let usta_haqi = fee sum master_row.percent_rate in
    let kuryer_haqi = driver_share driver_row (delivery_of o.delivery_needed) in
    record {
      usta_haqi = usta_haqi;
      kuryer_haqi = kuryer_haqi;
      boss_foyda = pos o.total_amount -ℤ pos usta_haqi -ℤ pos kuryer_haqi;
      total_amount = o.total_amount;
      services_sum = sum;
      delivery_fee_sum = delivery_of o.delivery_needed;
      organization_balance_added = for_organization o.organization_id o.total_amount;
    }

-- `item_type === product && product_id`, with the product id and the quantity that the loop reads
abbrev pub product_line : OrderItemType → Option ℕ → ℕ → List (ℕ × ℕ) → List (ℕ × ℕ)
product_line product (some p) quantity rest = (p, quantity) ∷ rest
product_line _ _ quantity rest = rest

unfoldable pub product_items : Table OrderItem → List (ℕ × ℕ)
product_items [] = []
product_items ((_, i) ∷ rest) =
    product_line i.item_type i.product_id i.quantity (product_items rest)

-- what the handler reads before the transaction: the order, its items, its master and driver
unfoldable pub read_settlement : ℕ → Order → Exec World (List (ℕ × ℕ) × Settlement)
unfolding settle product_items services_sum fee items_of
read_settlement id o = do
  items ← gets (items_of id)
  master_row ← gets (λ w. lookup o.master_id w.users)
  m ← or_throw master_row record_missing
  d ← gets (driver_of o.driver_id)
  pure (product_items items, settle o items m d)
