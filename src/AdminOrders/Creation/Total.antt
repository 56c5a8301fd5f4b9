-- ===== src/AdminOrders/Creation/Total.antt =====
-- The total of an order that the administrator creates.
use ustabobo_bot.Base.{
  ℕ, suc, ◌≡◌, refl, ◌⊎◌, inl, inr, true, Option, none, some, List, [], ◌∷◌, ◌++◌, map, ◌==◌, ap,
  sym, subst, All, arith,
}
use ustabobo_bot.Base.Table.{Table, lookup, find_many}
use ustabobo_bot.Base.Exec.{ok, err, Error}
use ustabobo_bot.Schema.{World, Env, Order, OrderItem}
use ustabobo_bot.Prisma.{items_of}
use ustabobo_bot.PriceCalculator.{calculate_order_total, for_total}
use ustabobo_bot.Base.Exec.{Result-cases}
use ustabobo_bot.Orders.{totals_of}
use ustabobo_bot.Orders.Totals.{HasTotal}
use ustabobo_bot.Orders.Draft.{
  CreateOrderDto, service_item, product_item, manual_item, item_data, number_rows,
  check_organization, check_items, product_ids,
}
use ustabobo_bot.AdminOrders.Creation.{admin_create_order, created_order}

-- the items of one order
abbrev IsOf : ℕ → List OrderItem → Type 0
IsOf id = All (λ i. i.order_id ≡ id)

IsOf-append : (id : ℕ) (xs ys : List OrderItem) → IsOf id xs → IsOf id ys → IsOf id (xs ++ ys)
IsOf-append id [] ys hx hy = hy
IsOf-append id (x ∷ xs) ys hx hy = (hx.0, IsOf-append id xs ys hx.1 hy)

IsOf-map :
    {A : Type 0} (id : ℕ) (f : A → OrderItem) (xs : List A)
    → ((a : A) → (f a).order_id ≡ id)
    → IsOf id (map f xs)
IsOf-map id f [] h = tt
IsOf-map id f (x ∷ xs) h = (h x, IsOf-map id f xs h)

item_data-IsOf : (w : World) (id : ℕ) (dto : CreateOrderDto) → IsOf id (item_data w id dto)
unfolding item_data
item_data-IsOf w id dto =
    IsOf-append id (map (service_item w id) dto.service_ids) _
      (IsOf-map id (service_item w id) dto.service_ids (λ a. refl))
      (IsOf-append id (map (product_item w id) dto.products) _
        (IsOf-map id (product_item w id) dto.products (λ a. refl))
        (IsOf-map id (manual_item id) dto.manual_products (λ a. refl)))

numbered-totals :
    (id : ℕ) (uuid : ℕ → ℕ) (n : ℕ) (items : List OrderItem) (t : Table OrderItem)
    → IsOf id items
    → find_many (λ i. i.order_id == id) t ≡ []
    → map
        (λ (_, i). for_total i)
        (find_many (λ i. i.order_id == id) (number_rows uuid n items ++ t))
      ≡ map for_total items
unfolding number_rows find_many
numbered-totals id uuid n [] t his none_yet = rw none_yet refl
numbered-totals id uuid n (i ∷ items) t his none_yet =
    let later = numbered-totals id uuid (suc n) items t his.1 none_yet in
    let mine : (i.order_id == id) ≡ true = ground (arith, his.0) in rw mine (rw later refl)

check_organization-keeps : (g v : Option ℕ) (w : World) → (check_organization g v w).1 ≡ w
unfolding check_organization
check_organization-keeps none none w = refl
check_organization-keeps none (some v) w = refl
check_organization-keeps (some g) none w = refl
check_organization-keeps (some g) (some v) w = ground arith

check_items-keeps : (ids ps : List ℕ) (w : World) → (check_items ids ps w).1 ≡ w
unfolding check_items
check_items-keeps ids ps w = ground arith

module _ (env : Env) (m : ℕ) (dto : CreateOrderDto) (w : World) where
  abbrev new_items : List OrderItem
  new_items = item_data w (env.uuid 0) dto

  abbrev row : Order
  row =
      created_order env m dto (calculate_order_total (map for_total new_items) dto.delivery_needed)

  abbrev new_world : World
  new_world = record w {
    orders = (env.uuid 0, row) ∷ w.orders;
    order_items = number_rows env.uuid 1 new_items ++ w.order_items;
  }

  created_world :
      (o : Option Order)
      → (admin_create_order env m dto w).0 ≡ ok o
      → admin_create_order env m dto w ≡ (ok (some row), new_world)
  unfolding admin_create_order lookup
  created_world o stored = ground (
    arith,
    check_organization-keeps dto.organization_id dto.vehicle_id w,
    check_items-keeps dto.service_ids (product_ids dto.products) w,
  )

  row-HasTotal : items_of (env.uuid 0) w ≡ [] → HasTotal (env.uuid 0) row new_world
  unfolding items_of totals_of lookup
  row-HasTotal fresh =
      let sums =
        numbered-totals (env.uuid 0) env.uuid 1 new_items w.order_items
          (item_data-IsOf w (env.uuid 0) dto) fresh in
      (ground arith, ap (λ x. calculate_order_total x dto.delivery_needed) (sym sums))

  -- The administrator's new order is stored with the total of its items, or the call throws, if no
  -- item is stored under the new id yet.
  pub admin_create_order-HasTotal :
      items_of (env.uuid 0) w ≡ []
      → ((e : Error) × ((admin_create_order env m dto w).0 ≡ err e))
        ⊎ ((o : Order) × ((admin_create_order env m dto w).0 ≡ ok (some o))
            × HasTotal (env.uuid 0) o (admin_create_order env m dto w).1)
  admin_create_order-HasTotal fresh = elim (Result-cases (admin_create_order env m dto w).0) [
    | inr (e, failed) ↦ inl (e, failed)
    | inl (o, stored) ↦
        let both =
          subst (λ r. (r.0 ≡ ok (some row)) × HasTotal (env.uuid 0) row r.1)
            (sym (created_world o stored)) (refl, row-HasTotal fresh) in
        inr (row, both.0, both.1)
  ]
