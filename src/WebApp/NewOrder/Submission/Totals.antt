-- ===== src/WebApp/NewOrder/Submission/Totals.antt =====
-- The total that the page shows, and the total that the server counts for the draft it stores.
use ustabobo_bot.Base.{
  ℕ, ◌+◌, ◌≡◌, refl, true, false, List, [], ◌∷◌, ◌++◌, map, is_some, includes, All, arith, sum_by,
}
use ustabobo_bot.Base.Table.{Table, lookup}
use ustabobo_bot.Schema.{World, Service, Product, OrderItem}
use ustabobo_bot.PriceCalculator.{for_total}
use ustabobo_bot.PriceCalculator.Sums.{line}
use ustabobo_bot.Orders.Draft.{
  ManualProductItemDto, product_ids, item_data, service_item, product_item, manual_item,
  service_price, product_price,
}
use ustabobo_bot.Orders.Draft.Rows.{repeats}
use ustabobo_bot.WebApp.NewOrder.{
  Page, SelectedService, SelectedProduct, payload, service_ids_of, copies, services_total,
  products_total, manual_total, order_total, to_dto,
}
use ustabobo_bot.WebApp.NewOrder.Cart.{AreLines, NoService}

-- one of each service, with the price that the server has stored
abbrev pub AreSingle : Table Service → List SelectedService → Type 0
AreSingle t = All (λ s.
    (s.quantity ≡ 1) × (is_some (lookup s.id t) ≡ true) × (service_price (lookup s.id t) ≡ s.price))

abbrev pub AreStocked : Table Product → List SelectedProduct → Type 0
AreStocked t = All (λ p.
    (is_some (lookup p.product_id t) ≡ true)
    × (product_price (lookup p.product_id t) ≡ p.sale_price))

abbrev pub ids : List SelectedService → List ℕ
ids = map (λ s. s.id)

pub service_ids_single :
    (t : Table Service) (xs : List SelectedService) → AreSingle t xs → service_ids_of xs ≡ ids xs
unfolding service_ids_of copies
service_ids_single t [] h = refl
service_ids_single t (s ∷ xs) h = rw (h.0.0, service_ids_single t xs h.1)

NoService-includes :
    (id : ℕ) (xs : List SelectedService) → NoService id xs → includes id (ids xs) ≡ false
NoService-includes id [] h = refl
NoService-includes id (s ∷ xs) h = ground (arith, h.0, NoService-includes id xs h.1)

pub AreLines-repeats : (xs : List SelectedService) → AreLines xs → repeats (ids xs) ≡ false
unfolding repeats
AreLines-repeats [] h = refl
AreLines-repeats (s ∷ xs) h =
    ground (arith, NoService-includes s.id xs h.1, AreLines-repeats xs h.2)

pub AreSingle-found :
    (t : Table Service) (xs : List SelectedService)
    → AreSingle t xs
    → All (λ k. is_some (lookup k t) ≡ true) (ids xs)
AreSingle-found t [] h = tt
AreSingle-found t (s ∷ xs) h = (h.0.1, AreSingle-found t xs h.1)

pub AreStocked-found :
    (t : Table Product) (xs : List SelectedProduct)
    → AreStocked t xs
    → All (λ k. is_some (lookup k t) ≡ true) (product_ids (map to_dto xs))
AreStocked-found t [] h = tt
AreStocked-found t (p ∷ xs) h = (h.0.0, AreStocked-found t xs h.1)

-- the sum over the items of a new order
abbrev pub worth : List OrderItem → ℕ
worth = sum_by (λ i. line (for_total i))

worth-append : (xs ys : List OrderItem) → worth (xs ++ ys) ≡ worth xs + worth ys
worth-append [] ys = omega arith
worth-append (x ∷ xs) ys = omega (arith, worth-append xs ys)

module _ (w : World) (id : ℕ) where
  worth-services :
      (xs : List SelectedService)
      → AreSingle w.services xs
      → worth (map (service_item w id) (ids xs)) ≡ services_total xs
  unfolding services_total
  worth-services [] h = refl
  worth-services (s ∷ xs) h = rw (h.0.0, h.0.2, worth-services xs h.1)

  worth-products :
      (xs : List SelectedProduct)
      → AreStocked w.products xs
      → worth (map (product_item w id) (map to_dto xs)) ≡ products_total xs
  unfolding products_total
  worth-products [] h = refl
  worth-products (p ∷ xs) h = rw (h.0.1, worth-products xs h.1)

  worth-manual :
      (xs : List ManualProductItemDto) → worth (map (manual_item id) xs) ≡ manual_total xs
  unfolding manual_total
  worth-manual [] = refl
  worth-manual (m ∷ xs) = rw (worth-manual xs)

  pub worth-item_data :
      (p : Page)
      → AreSingle w.services p.services
      → AreStocked w.products p.products
      → worth (item_data w id (payload p)) ≡ order_total p
  unfolding item_data payload order_total
  worth-item_data p single stocked =
      let a = worth-append (map (service_item w id) (service_ids_of p.services)) (
        map (product_item w id) (map to_dto p.products)
        ++ map (manual_item id) p.manual_products) in
      let b =
        worth-append (map (product_item w id) (map to_dto p.products))
          (map (manual_item id) p.manual_products) in
      rw (a, b, service_ids_single w.services p.services single)
        (omega (
          arith,
          worth-services p.services single,
          worth-products p.products stocked,
          worth-manual p.manual_products,
        ))
