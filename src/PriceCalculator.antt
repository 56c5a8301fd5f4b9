-- ===== src/PriceCalculator.antt =====
-- src/orders/price-calculator.ts
pub mod Sums
use ustabobo_bot.Base.{ℕ, ◌+◌, ◌*◌, Bool, List, [], ◌∷◌, if◌then◌else◌}
use ustabobo_bot.Schema.{OrderItemType, OrderItem}

-- hundredths in a so'm
abbrev pub som : ℕ
som = 100

-- `DELIVERY_FEE`, 30 000 so'm
abbrev pub delivery_price : ℕ
delivery_price = 30_000 * som

pub record OrderItemForTotal : Type 0 where
  pub item_type : OrderItemType
  pub price_at_time : ℕ
  pub quantity : ℕ

-- the projection that every caller writes before the call
abbrev pub for_total : OrderItem → OrderItemForTotal
for_total i = record {
  item_type = i.item_type;
  price_at_time = i.price_at_time;
  quantity = i.quantity;
}

-- `reduce((sum, item) => sum + price_at_time * quantity, …)`
unfoldable pub items_total : ℕ → List OrderItemForTotal → ℕ
items_total sum [] = sum
items_total sum (item ∷ rest) = items_total (sum + item.price_at_time * item.quantity) rest

unfoldable pub calculate_order_total : List OrderItemForTotal → Bool → ℕ
calculate_order_total items delivery_needed =
    items_total 0 items + (if delivery_needed then delivery_price else 0)
