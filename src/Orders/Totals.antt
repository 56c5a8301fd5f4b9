-- ===== src/Orders/Totals.antt =====
-- The totals that the handlers store with an order.
use ustabobo_bot.Base.{ℕ, ◌≡◌, ◌⊎◌, inl, inr, Option, some, arith, Option-cases}
use ustabobo_bot.Base.Int.{ℤ}
use ustabobo_bot.Base.Table.{lookup}
use ustabobo_bot.Base.Exec.{Result, ok, err, Error}
use ustabobo_bot.Schema.{World, Env, Text, Order, waiting_confirmation}
use ustabobo_bot.Prisma.{items_of}
use ustabobo_bot.PriceCalculator.{calculate_order_total}
use ustabobo_bot.Base.Exec.{Result-cases}
use ustabobo_bot.Base.Table.{lookup-modify}
use ustabobo_bot.Orders.{totals_of}
use ustabobo_bot.Orders.Location.{
  set_location, add_manual_product, valid_price, with_item, typed_item,
}
use ustabobo_bot.Text.{trim}

-- the order that a call returns is the one stored, and its total is that of its stored items
abbrev pub HasTotal : ℕ → Order → World → Type 0
HasTotal id o w =
    (lookup id w.orders ≡ some o)
    × (o.total_amount ≡ calculate_order_total (totals_of id w) o.delivery_needed)

-- a call that throws, or returns an order with its total
abbrev pub Totalled : ℕ → Result Order × World → Type 0
Totalled id r = ((e : Error) × (r.0 ≡ err e)) ⊎ ((o : Order) × (r.0 ≡ ok o) × HasTotal id o r.1)

-- A location that is accepted stores the total that the items and the delivery flag come to.
pub set_location-Totalled :
    (id m : ℕ) (lat lng : ℤ) (w : World) → Totalled id (set_location id m lat lng w)
unfolding set_location totals_of items_of
set_location-Totalled id m lat lng w = elim (Result-cases (set_location id m lat lng w).0) [
  | inr (e, failed) ↦ inl (e, failed)
  | inl (o', stored) ↦ elim (Option-cases (lookup id w.orders)) [
    | inl missing ↦ ground arith
    | inr (o, found) ↦
        let f : Order → Order = λ p. record p {
          lat = some lat;
          lng = some lng;
          total_amount = calculate_order_total (totals_of id w) o.delivery_needed;
          status = waiting_confirmation;
        } in
        inr (o', stored, (ground (arith, lookup-modify id id f w.orders), ground arith))
  ]
]

-- A product that is typed in by hand leaves the draft with the total of its items, the new one
-- among them.
pub add_manual_product-Totalled :
    (env : Env) (id m : ℕ) (name : Text) (price quantity : Option ℤ) (w : World)
    → Totalled id (add_manual_product env id m name price quantity w)
unfolding add_manual_product totals_of items_of
add_manual_product-Totalled env id m name price quantity w =
    elim (Result-cases (add_manual_product env id m name price quantity w).0) [
      | inr (e, failed) ↦ inl (e, failed)
      | inl (o', stored) ↦ elim (Option-cases (lookup id w.orders)) [
        | inl missing ↦ ground arith
        | inr (o, found) ↦ elim (Option-cases (valid_price price)) [
          | inl invalid ↦ ground arith
          | inr (n, valid) ↦
              let added = with_item (env.uuid 0) (typed_item id (trim name) n quantity) w in
              let f : Order → Order = λ p. record p {
                total_amount = calculate_order_total (totals_of id added) o.delivery_needed;
              } in
              inr (o', stored, (ground (arith, lookup-modify id id f w.orders), ground arith))
        ]
      ]
    ]
