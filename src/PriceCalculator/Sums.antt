-- ===== src/PriceCalculator/Sums.antt =====
-- The total of an order as a sum, which no order of the items changes.
use ustabobo_bot.Base.{ℕ, ◌+◌, ◌*◌, ◌≡◌, Bool, List, [], ◌∷◌, arith, sum_by, if◌then◌else◌}
use ustabobo_bot.PriceCalculator.{
  OrderItemForTotal, items_total, calculate_order_total, delivery_price,
}

abbrev pub line : OrderItemForTotal → ℕ
line i = i.price_at_time * i.quantity

pub items_total_lem :
    (acc : ℕ) (items : List OrderItemForTotal) → items_total acc items ≡ acc + sum_by line items
unfolding items_total
items_total_lem acc [] = omega arith
items_total_lem acc (i ∷ items) = omega (arith, items_total_lem (acc + line i) items)

-- The total of an order is the sum of price times quantity over its items, and the fee if the
-- order is delivered.
pub calculate_order_total-eq-sum :
    (items : List OrderItemForTotal) (delivery_needed : Bool)
    → calculate_order_total items delivery_needed
      ≡ sum_by line items + (if delivery_needed then delivery_price else 0)
unfolding calculate_order_total
calculate_order_total-eq-sum items d = omega (arith, items_total_lem 0 items)
