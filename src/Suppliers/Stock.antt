-- ===== src/Suppliers/Stock.antt =====
-- What a delivery of goods and a payment do to the store and to a supplier's account.
use ustabobo_bot.Base.{
  ℕ, ◌+◌, ◌*◌, ◌≡◌, true, Option, some, ◌==◌, if◌then◌else◌, or_else, arith, Option-cases, inl, inr,
  ◌⊎◌,
}
use ustabobo_bot.Base.Int.{pos, ◌+ℤ◌, ◌-ℤ◌}
use ustabobo_bot.Base.Table.{lookup, lookup-modify}
use ustabobo_bot.Base.Exec.{ok, err, not_found, supplier_missing}
use ustabobo_bot.Schema.{World, Env, Text, Product}
use ustabobo_bot.Suppliers.{
  StockInDto, stock_in, is_active_supplier, record_supplier_payment, purchases_sum, payments_sum,
  debt, payment_of,
}

-- what a delivery costs at the price that the call works with
abbrev pub cost_of : StockInDto → Product → ℕ
cost_of dto p = dto.quantity * or_else dto.price_per_unit p.cost_price

abbrev pub delivered : StockInDto → Product → Product
delivered dto p = record p {
  stock_count = p.stock_count + dto.quantity;
  cost_price = or_else dto.price_per_unit p.cost_price;
}

abbrev restocked : StockInDto → Product → Product → Product
restocked dto p q = record q {
  stock_count = p.stock_count + dto.quantity;
  cost_price = or_else dto.price_per_unit p.cost_price;
}

debt_grows : (c a b : ℕ) → pos (c + a) -ℤ pos b ≡ (pos a -ℤ pos b) +ℤ pos c
unfolding ◌-ℤ◌ ◌+ℤ◌
debt_grows c a b = ground arith

debt_shrinks : (c a b : ℕ) → pos a -ℤ pos (c + b) ≡ (pos a -ℤ pos b) -ℤ pos c
unfolding ◌-ℤ◌
debt_shrinks c a b = ground arith

-- A delivery from an active supplier is stored: the stock grows by its quantity, and the debt to
-- that supplier by quantity times the price of the call, or the old cost price where it names none.
pub stock_in-debt :
    (env : Env) (id s : ℕ) (dto : StockInDto) (user : Option ℕ) (w : World) (p : Product)
    → lookup id w.products ≡ some p
    → dto.supplier_id ≡ some s
    → is_active_supplier (lookup s w.suppliers) ≡ true
    → (lookup id (stock_in env id dto user w).1.products ≡ some (delivered dto p))
      × (debt s (stock_in env id dto user w).1 ≡ debt s w +ℤ pos (cost_of dto p))
unfolding stock_in debt purchases_sum
stock_in-debt env id s dto user w p found his active = (
  rw (found, his, active) (ground (arith, lookup-modify id id (restocked dto p) w.products)),
  rw (found, his, active)
      (ground (
        arith,
        debt_grows (cost_of dto p) (purchases_sum s w.purchases) (payments_sum s w.payments),
      )),
)

-- A payment to a known supplier lowers the debt to him by its amount, and no other's; to an unknown
-- one it is refused and nothing is written.
pub record_supplier_payment-debt :
    (env : Env) (user : Option ℕ) (s amount : ℕ) (memo : Option Text) (w : World)
    → ((record_supplier_payment env user s amount memo w).0 ≡ ok (payment_of s amount env.now memo))
        × ((t : ℕ)
            → debt t (record_supplier_payment env user s amount memo w).1
              ≡ (if s == t then debt t w -ℤ pos amount else debt t w))
      ⊎ (record_supplier_payment env user s amount memo w ≡ (err (not_found supplier_missing), w))
unfolding record_supplier_payment debt payments_sum
record_supplier_payment-debt env user s amount memo w = elim (Option-cases (lookup s w.suppliers)) [
  | inl unknown ↦ inr (ground arith)
  | inr (row, known) ↦ inl (
    ground arith,
    λ t.
        ground
          (arith, debt_shrinks amount (purchases_sum t w.purchases) (payments_sum t w.payments)),
  )
]
