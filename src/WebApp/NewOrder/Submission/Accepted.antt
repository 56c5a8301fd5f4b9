-- ===== src/WebApp/NewOrder/Submission/Accepted.antt =====
-- When createDraft accepts the order of the page, and what it then owes.
use ustabobo_bot.Base.{
  ℕ, suc, ◌+◌, ◌≡◌, refl, false, List, [], ◌∷◌, ◌++◌, map, ◌==◌, length, All, arith, ap,
  if◌then◌else◌, sum_by,
}
use ustabobo_bot.Base.Table.{Table, IsKeyed, find_many}
use ustabobo_bot.Base.Exec.{ok}
use ustabobo_bot.Schema.{World, Env, OrderItem}
use ustabobo_bot.Prisma.{items_of}
use ustabobo_bot.PriceCalculator.{for_total, calculate_order_total, delivery_price}
use ustabobo_bot.PriceCalculator.Sums.{line, calculate_order_total-eq-sum}
use ustabobo_bot.Orders.{totals_of}
use ustabobo_bot.Orders.Draft.{
  CreateOrderDto, ManualProductItemDto, ProductItemDto, create_draft, check_organization,
  check_items, product_ids, item_data, number_rows, service_item, product_item, manual_item,
  rows_in, missing, distinct, is_empty_order,
}
use ustabobo_bot.Orders.Draft.Rows.{rows_in-all, missing-distinct}
use ustabobo_bot.Orders.Lifecycle.Draft.{check_organization-keeps, check_items-keeps}
use ustabobo_bot.WebApp.NewOrder.{
  Page, SelectedService, payload, order_total, to_dto, is_cart_empty,
}
use ustabobo_bot.WebApp.NewOrder.Cart.{IsCart}
use ustabobo_bot.WebApp.NewOrder.Submission.Totals.{
  AreSingle, AreStocked, worth, worth-item_data, service_ids_single, AreLines-repeats,
  AreSingle-found, AreStocked-found, ids,
}

abbrev HaveOrder : ℕ → List OrderItem → Type 0
HaveOrder id = All (λ i. i.order_id ≡ id)

HaveOrder-append :
    (id : ℕ) (xs ys : List OrderItem) → HaveOrder id xs → HaveOrder id ys → HaveOrder id (xs ++ ys)
HaveOrder-append id [] ys h k = k
HaveOrder-append id (x ∷ xs) ys h k = (h.0, HaveOrder-append id xs ys h.1 k)

HaveOrder-services : (w : World) (id : ℕ) (ks : List ℕ) → HaveOrder id (map (service_item w id) ks)
HaveOrder-services w id [] = tt
HaveOrder-services w id (k ∷ ks) = (refl, HaveOrder-services w id ks)

HaveOrder-products :
    (w : World) (id : ℕ) (ps : List ProductItemDto) → HaveOrder id (map (product_item w id) ps)
HaveOrder-products w id [] = tt
HaveOrder-products w id (p ∷ ps) = (refl, HaveOrder-products w id ps)

HaveOrder-manual :
    (id : ℕ) (ms : List ManualProductItemDto) → HaveOrder id (map (manual_item id) ms)
HaveOrder-manual id [] = tt
HaveOrder-manual id (m ∷ ms) = (refl, HaveOrder-manual id ms)

HaveOrder-item_data :
    (w : World) (id : ℕ) (dto : CreateOrderDto) → HaveOrder id (item_data w id dto)
unfolding item_data
HaveOrder-item_data w id dto =
    HaveOrder-append id (map (service_item w id) dto.service_ids)
      (map (product_item w id) dto.products ++ map (manual_item id) dto.manual_products)
      (HaveOrder-services w id dto.service_ids)
      (HaveOrder-append id (map (product_item w id) dto.products)
        (map (manual_item id) dto.manual_products) (HaveOrder-products w id dto.products)
        (HaveOrder-manual id dto.manual_products))

abbrev of_order : ℕ → Table OrderItem → Table OrderItem
of_order id = find_many (λ (i : OrderItem). i.order_id == id)

new_rows :
    (id n : ℕ) (uuid : ℕ → ℕ) (items : List OrderItem) (old : Table OrderItem)
    → HaveOrder id items
    → of_order id old ≡ []
    → sum_by line (map (λ (_, i). for_total i) (of_order id (number_rows uuid n items ++ old)))
      ≡ worth items
unfolding number_rows find_many
new_rows id n uuid [] old h fresh = rw fresh
new_rows id n uuid (i ∷ items) old h fresh =
    ground (arith, h.0, new_rows id (suc n) uuid items old h.1 fresh)

length-map {ℓ κ} :
    {A : Type ℓ} {B : Type κ} (f : A → B) (xs : List A) → length (map f xs) ≡ length xs
length-map f [] = refl
length-map f (x ∷ xs) = rw (length-map f xs)

module _ (env : Env) (m : ℕ) (dto : CreateOrderDto) (w : World) where
  create_draft-accepted :
      is_empty_order dto ≡ false
      → (check_organization dto.organization_id dto.vehicle_id w).0 ≡ ok tt
      → (check_items dto.service_ids (product_ids dto.products) w).0 ≡ ok tt
      → ((create_draft env m dto w).0 ≡ ok (env.uuid 0))
        × ((create_draft env m dto w).1.order_items
            ≡ number_rows env.uuid 1 (item_data w (env.uuid 0) dto) ++ w.order_items)
  unfolding create_draft
  create_draft-accepted full org items =
      let same_org = check_organization-keeps dto.organization_id dto.vehicle_id w in
      let same_items = check_items-keeps dto.service_ids (product_ids dto.products) w in
      (ground (arith, same_org, same_items), ground (arith, same_org, same_items))

check_items-ok :
    (a b : List ℕ) (w : World)
    → length (rows_in a w.services) ≡ length a
    → missing (rows_in b w.products) (distinct b) ≡ []
    → (check_items a b w).0 ≡ ok tt
unfolding check_items
check_items-ok a b w found none_missing = ground (arith, ap length none_missing)

module _ (env : Env) (m : ℕ) (w : World) (p : Page) where
  -- the server's checks pass for a cart whose services are stored, and not repeated
  payload-present :
      IsKeyed w.services
      → IsCart p
      → AreSingle w.services p.services
      → AreStocked w.products p.products
      → (check_items (payload p).service_ids (product_ids (payload p).products) w).0 ≡ ok tt
  unfolding payload
  payload-present keyed cart single stocked =
      let found =
        rows_in-all (ids p.services) w.services keyed (AreLines-repeats p.services cart.services)
          (AreSingle-found w.services p.services single) in
      let none_missing =
        missing-distinct (product_ids (map to_dto p.products)) w.products
          (AreStocked-found w.products p.products stocked) in
      rw (service_ids_single w.services p.services single)
        (check_items-ok (ids p.services) (product_ids (map to_dto p.products)) w found none_missing)

  payload-full :
      IsCart p
      → AreSingle w.services p.services
      → is_cart_empty p ≡ false
      → is_empty_order (payload p) ≡ false
  unfolding payload
  payload-full cart single full =
      rw
        (
          service_ids_single w.services p.services single,
          length-map (λ (s : SelectedService). s.id) p.services,
          length-map to_dto p.products,
        )
        full

  -- createDraft accepts the order of the page and counts for the stored draft the total that the page
  -- shows, and the fee of a delivery where one is asked for: if the cart is not empty, has each service
  -- once, holds what the server has stored at the stored prices, if the server lets the organization
  -- and the vehicle pass, and if no item names the new order yet.
  pub payload-order_total :
      IsKeyed w.services
      → IsCart p
      → AreSingle w.services p.services
      → AreStocked w.products p.products
      → is_cart_empty p ≡ false
      → (check_organization (payload p).organization_id (payload p).vehicle_id w).0 ≡ ok tt
      → items_of (env.uuid 0) w ≡ []
      → ((create_draft env m (payload p) w).0 ≡ ok (env.uuid 0))
        × (calculate_order_total
              (totals_of (env.uuid 0) (create_draft env m (payload p) w).1)
              p.delivery_needed
            ≡ order_total p + (if p.delivery_needed then delivery_price else 0))
  unfolding totals_of items_of
  payload-order_total keyed cart single stocked full org fresh =
      let done =
        create_draft-accepted env m (payload p) w (payload-full cart single full) org
          (payload-present keyed cart single stocked) in
      let items = item_data w (env.uuid 0) (payload p) in
      (
        done.0,
        rw
            (
              calculate_order_total-eq-sum
                  (totals_of (env.uuid 0) (create_draft env m (payload p) w).1) p.delivery_needed,
              done.1,
            )
            (omega (
              arith,
              new_rows (env.uuid 0) 1 env.uuid items w.order_items
                  (HaveOrder-item_data w (env.uuid 0) (payload p)) fresh,
              worth-item_data w (env.uuid 0) p single stocked,
            )),
      )
