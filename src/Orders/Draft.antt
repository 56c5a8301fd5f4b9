-- ===== src/Orders/Draft.antt =====
-- src/orders/orders.service.ts: createDraft, with its checks and the rows that it writes.
pub mod Rows
use ustabobo_bot.Base.{
  ℕ, suc, Bool, false, not, ◌&&◌, Option, none, some, List, [], ◌∷◌, ◌++◌, map, ◌==◌, if◌then◌else◌,
  is_some, length, includes,
}
use ustabobo_bot.Base.Table.{Table, lookup}
use ustabobo_bot.Base.Exec.{
  Exec, bad_request, empty_order, foreign_vehicle, half_organization, services_missing,
  products_missing, pure, throw, gets, put, throw_if, ◌>>=◌, ◌>>◌,
}
use ustabobo_bot.Schema.{
  World, Env, Text, Order, OrderItem, Product, Vehicle, Service, draft, draft_created, product,
  service, manual_product, ask_location, ask_confirm,
}
use ustabobo_bot.Prisma.{create_event, notify_user}
use ustabobo_bot.Orders.{find_tg}

-- `CreateOrderDto` (src/orders/dto/create-order.dto.ts); an absent list is an empty one
pub record ProductItemDto : Type 0 where
  pub product_id : ℕ
  pub quantity : ℕ

pub record ManualProductItemDto : Type 0 where
  pub name : Text
  pub price : ℕ
  pub quantity : ℕ

pub record CreateOrderDto : Type 0 where
  pub client_name : Text
  pub client_phone : Text
  pub car_number : Text
  pub car_model : Option Text
  pub car_photo_url : Option Text
  pub organization_id : Option ℕ
  pub vehicle_id : Option ℕ
  pub delivery_needed : Bool
  pub service_ids : List ℕ
  pub products : List ProductItemDto
  pub manual_products : List ManualProductItemDto

-- `vehicle.findFirst({ where: { id, org_id } })`
abbrev pub vehicle_belongs : ℕ → Option Vehicle → Bool
vehicle_belongs org none = false
vehicle_belongs org (some v) = v.org_id == org

-- an organization and one of its vehicles, or neither
unfoldable pub check_organization : Option ℕ → Option ℕ → Exec World (Unit {0})
check_organization (some org) (some vehicle) = do
  found ← gets (λ w. vehicle_belongs org (lookup vehicle w.vehicles))
  throw_if (not found) (bad_request foreign_vehicle)
check_organization none none = pure tt
check_organization _ _ = throw (bad_request half_organization)

-- `findMany({ where: { id: { in: ids } } })`
unfoldable pub rows_in {ℓ} : {A : Type ℓ} → List ℕ → Table A → Table A
rows_in ids [] = []
rows_in ids ((j, a) ∷ t) =
    let rest = rows_in ids t in if includes j ids then (j, a) ∷ rest else rest

-- `[...new Set(ids)]`, which keeps the first of each; the program uses its length and members
unfoldable pub distinct : List ℕ → List ℕ
distinct [] = []
distinct (k ∷ ks) = let rest = distinct ks in if includes k ks then rest else k ∷ rest

abbrev pub product_ids : List ProductItemDto → List ℕ
product_ids = map (λ p. p.product_id)

-- `ids.filter((id) => !foundIds.has(id))`
unfoldable pub missing {ℓ} : {A : Type ℓ} → Table A → List ℕ → List ℕ
missing found [] = []
missing found (k ∷ ks) =
    let rest = missing found ks in if is_some (lookup k found) then rest else k ∷ rest

-- every service id must name a service, and every product id a product
unfoldable pub check_items : List ℕ → List ℕ → Exec World (Unit {0})
unfolding rows_in distinct missing
check_items service_ids ids = do
  services ← gets (λ w. rows_in service_ids w.services)
  throw_if (not (length services == length service_ids)) (bad_request services_missing)
  records ← gets (λ w. rows_in ids w.products)
  throw_if
      (not (length records == length (distinct ids))
        && not (length (missing records (distinct ids)) == 0))
      (bad_request products_missing)

abbrev pub service_price : Option Service → ℕ
service_price none = 0
service_price (some s) = s.price

abbrev pub product_price : Option Product → ℕ
product_price none = 0
product_price (some p) = p.sale_price

-- one element of `itemData`, for each of the three loops
abbrev pub service_item : World → ℕ → ℕ → OrderItem
service_item w order_id id = record {
  order_id = order_id;
  item_type = service;
  product_id = none;
  service_id = some id;
  item_name = none;
  quantity = 1;
  price_at_time = service_price (lookup id w.services);
}

abbrev pub product_item : World → ℕ → ProductItemDto → OrderItem
product_item w order_id p = record {
  order_id = order_id;
  item_type = product;
  product_id = some p.product_id;
  service_id = none;
  item_name = none;
  quantity = p.quantity;
  price_at_time = product_price (lookup p.product_id w.products);
}

abbrev pub manual_item : ℕ → ManualProductItemDto → OrderItem
manual_item order_id m = record {
  order_id = order_id;
  item_type = manual_product;
  product_id = none;
  service_id = none;
  item_name = some m.name;
  quantity = m.quantity;
  price_at_time = m.price;
}

-- `itemData`
unfoldable pub item_data : World → ℕ → CreateOrderDto → List OrderItem
item_data w id dto =
    map (service_item w id) dto.service_ids
    ++ (map (product_item w id) dto.products ++ map (manual_item id) dto.manual_products)

-- `orderItem.createMany`: the rows get the next ids
unfoldable pub number_rows {ℓ} : {A : Type ℓ} → (ℕ → ℕ) → ℕ → List A → Table A
number_rows uuid n [] = []
number_rows uuid n (a ∷ rest) = (uuid n, a) ∷ number_rows uuid (suc n) rest

abbrev pub is_empty_order : CreateOrderDto → Bool
is_empty_order dto =
    length dto.service_ids == 0 && length dto.products == 0 && length dto.manual_products == 0

abbrev pub draft_order : Env → ℕ → CreateOrderDto → Order
draft_order env master_id dto = record {
  master_id = master_id;
  driver_id = none;
  organization_id = dto.organization_id;
  vehicle_id = dto.vehicle_id;
  client_name = dto.client_name;
  client_phone = dto.client_phone;
  car_number = dto.car_number;
  car_model = dto.car_model;
  car_photo_url = dto.car_photo_url;
  lat = none;
  lng = none;
  delivery_needed = dto.delivery_needed;
  status = draft;
  total_amount = 0;
  confirm_token = none;
  created_at = env.now;
  completed_at = none;
}

-- `botNotify.sendMessageAfterDraft`
abbrev pub send_message_after_draft : ℕ → ℕ → Bool → Exec World (Unit {0})
send_message_after_draft id master_id delivery_needed = do
  tg ← find_tg master_id
  notify_user tg (λ chat. if delivery_needed then ask_location chat else ask_confirm chat id)

unfoldable pub create_draft : Env → ℕ → CreateOrderDto → Exec World ℕ
create_draft env master_id dto = do
  throw_if (is_empty_order dto) (bad_request empty_order)
  check_organization dto.organization_id dto.vehicle_id
  check_items dto.service_ids (product_ids dto.products)
  let id = env.uuid 0
  items ← gets (λ w. item_data w id dto)
  put (λ w. record w {
    orders = (id, draft_order env master_id dto) ∷ w.orders;
    order_items = number_rows env.uuid 1 items ++ w.order_items;
  })
  create_event id (some master_id) draft_created
  send_message_after_draft id master_id dto.delivery_needed
  pure id
