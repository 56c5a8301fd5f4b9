-- ===== src/AdminOrders/Items.antt =====
-- The items and the total of an order that the administrator has edited.
use ustabobo_bot.Base.{
  ℕ, suc, ◌≡◌, refl, inl, inr, Option, some, List, [], ◌∷◌, or_else, includes, arith, Bool-cases,
  Option-cases,
}
use ustabobo_bot.Base.Table.{lookup, erase}
use ustabobo_bot.Base.Exec.{ok, err, Error}
use ustabobo_bot.Schema.{World, Env, Order}
use ustabobo_bot.Prisma.{items_of}
use ustabobo_bot.PriceCalculator.{calculate_order_total}
use ustabobo_bot.Base.Exec.{Result-cases}
use ustabobo_bot.Base.Table.{lookup-modify}
use ustabobo_bot.Orders.{totals_of}
use ustabobo_bot.Orders.Totals.{Totalled}
use ustabobo_bot.AdminOrders.{
  ItemRow, UpdateOrderDto, save_row, save_rows, delete_others, save_items, changed,
  admin_update_order, keys,
}

save_row-orders :
    (fresh id : ℕ) (existing : List ℕ) (r : ItemRow) (w : World)
    → (save_row fresh id existing r w).1.orders ≡ w.orders
save_row-orders fresh id existing r w = ground arith

save_rows-orders :
    (uuid : ℕ → ℕ) (n id : ℕ) (existing : List ℕ) (rows : List ItemRow) (w : World)
    → (save_rows uuid n id existing rows w).1.orders ≡ w.orders
unfolding save_rows
save_rows-orders uuid n id existing [] w = refl
save_rows-orders uuid n id existing (r ∷ rest) w = ground (
  arith,
  save_row-orders (uuid n) id existing r w,
  save_rows-orders uuid (suc n) id existing rest (save_row (uuid n) id existing r w).1,
)

delete_others-orders :
    (kept ks : List ℕ) (w : World) → (delete_others kept ks w).1.orders ≡ w.orders
unfolding delete_others
delete_others-orders kept [] w = refl
delete_others-orders kept (k ∷ ks) w = elim (Bool-cases (includes k kept)) [
  | inl keep ↦ rw keep (delete_others-orders kept ks w)
  | inr drop ↦
      rw drop (delete_others-orders kept ks (record w { order_items = erase k w.order_items }))
]

delete_others-ok : (kept ks : List ℕ) (w : World) → (delete_others kept ks w).0 ≡ ok tt
unfolding delete_others
delete_others-ok kept [] w = refl
delete_others-ok kept (k ∷ ks) w = elim (Bool-cases (includes k kept)) [
  | inl keep ↦ rw keep (delete_others-ok kept ks w)
  | inr drop ↦ rw drop (delete_others-ok kept ks (record w { order_items = erase k w.order_items }))
]

-- what the total is computed from
module _ (env : Env) (id : ℕ) (o : Order) (dto : UpdateOrderDto) (w : World) where
  abbrev saved : World
  saved = (save_items env id o dto w).1

  save_items-orders : saved.orders ≡ w.orders
  unfolding save_items
  save_items-orders = elim (Option-cases dto.order_items) [
    | inl absent ↦ rw absent refl
    | inr (rows, given) ↦
        rw given (elim (Result-cases (save_rows env.uuid 0 id (keys (items_of id w)) rows w).0) [
          | inr (e, failed) ↦
              ground (arith, save_rows-orders env.uuid 0 id (keys (items_of id w)) rows w)
          | inl (kept, done) ↦ ground (
            arith,
            save_rows-orders env.uuid 0 id (keys (items_of id w)) rows w,
            delete_others-orders kept (keys (items_of id w))
                (save_rows env.uuid 0 id (keys (items_of id w)) rows w).1,
            delete_others-ok kept (keys (items_of id w))
                (save_rows env.uuid 0 id (keys (items_of id w)) rows w).1,
          )
        ])
  ]

  save_items-total :
      (rows : List ItemRow) (total : Option ℕ)
      → dto.order_items ≡ some rows
      → (save_items env id o dto w).0 ≡ ok total
      → total
        ≡ some (
            calculate_order_total
              (totals_of id saved)
              (or_else dto.delivery_needed o.delivery_needed))
  unfolding save_items
  save_items-total rows total given =
      rw given (elim (Result-cases (save_rows env.uuid 0 id (keys (items_of id w)) rows w).0) [
        | inr (e, failed) ↦ λ h. ground arith
        | inl (kept, done) ↦ λ h. ground (
          arith,
          delete_others-ok kept (keys (items_of id w))
              (save_rows env.uuid 0 id (keys (items_of id w)) rows w).1,
        )
      ])

module _ (env : Env) (user : Option ℕ) (id : ℕ) (dto : UpdateOrderDto) (w : World) (o : Order) where
  after_save :
      (total : Option ℕ)
      → lookup id w.orders ≡ some o
      → (save_items env id o dto w).0 ≡ ok total
      → total
        ≡ some (
            calculate_order_total
              (totals_of id (saved env id o dto w))
              (or_else dto.delivery_needed o.delivery_needed))
      → Totalled id (admin_update_order env user id dto w)
  unfolding admin_update_order totals_of items_of
  after_save total found done sum = elim (Result-cases (admin_update_order env user id dto w).0) [
    | inl (o', stored) ↦ inr (
      o',
      stored,
      (
        ground (
          arith,
          save_items-orders env id o dto w,
          lookup-modify id id (changed dto total) (saved env id o dto w).orders,
        ),
        ground (arith, save_items-orders env id o dto w),
      ),
    )
    | inr (e, failed) ↦ inl (e, failed)
  ]

  save_failed :
      (e : Error)
      → lookup id w.orders ≡ some o
      → (save_items env id o dto w).0 ≡ err e
      → (e' : Error) × ((admin_update_order env user id dto w).0 ≡ err e')
  unfolding admin_update_order
  save_failed e found failed = elim (Result-cases (admin_update_order env user id dto w).0) [
    | inl (o', stored) ↦ ground arith
    | inr throws ↦ throws
  ]

  -- An edit that gives the items either throws, or returns the order as it is then stored, with the
  -- total that its stored items and its stored delivery flag come to.
  pub admin_update_order-HasTotal :
      (rows : List ItemRow)
      → lookup id w.orders ≡ some o
      → dto.order_items ≡ some rows
      → Totalled id (admin_update_order env user id dto w)
  admin_update_order-HasTotal rows found given = elim (Result-cases (save_items env id o dto w).0) [
    | inl (total, done) ↦
        after_save total found done (save_items-total env id o dto w rows total given done)
    | inr (e, failed) ↦ inl (save_failed e found failed)
  ]
