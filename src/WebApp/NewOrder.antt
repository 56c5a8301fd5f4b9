-- ===== src/WebApp/NewOrder.antt =====
-- webapp/app/new-order/page.tsx: the form of a new order: the cart, the car, and the two steps in
-- which it is sent. Ids are numbers, and an empty id is `none`; prices are in hundredths. The search
-- boxes, the upload of the photo and what is only drawn are left out.
pub mod Cart
pub mod Loading
pub mod Submission
use ustabobo_bot.Base.{
  ℕ, zero, suc, ◌+◌, ◌*◌, Bool, true, false, not, ◌&&◌, ◌||◌, Option, none, some, List, [], ◌∷◌,
  ◌++◌, map, ◌==◌, ltb, length, if◌then◌else◌, is_some, max,
}
use ustabobo_bot.Schema.{Text}
use ustabobo_bot.Text.{trim}
use ustabobo_bot.Orders.Draft.{ProductItemDto, ManualProductItemDto, CreateOrderDto}
use ustabobo_bot.WebApp.Validation.{is_valid_phone, is_valid_plate, normalize_plate}

pub record SelectedService : Type 0 where
  pub id : ℕ
  pub name : Text
  pub price : ℕ
  pub quantity : ℕ

pub record SelectedProduct : Type 0 where
  pub product_id : ℕ
  pub quantity : ℕ
  pub name : Text
  pub sale_price : ℕ

-- the rows that the searches return
pub record ServiceItem : Type 0 where
  pub id : ℕ
  pub name : Text
  pub price : ℕ

pub record ProductItem : Type 0 where
  pub id : ℕ
  pub name : Text
  pub sale_price : ℕ

pub record VehicleItem : Type 0 where
  pub id : ℕ
  pub plate_number : Text
  pub model : Text

pub data PageError : Type 0 where
  fields_missing bad_phone bad_plate nothing_chosen not_saved : PageError

pub record Page : Type 0 where
  pub client_name : Text
  pub client_phone : Text
  pub car_number : Text
  pub car_model : Text
  pub car_photo_url : Text
  pub is_org_vehicle : Bool
  pub org_id : Option ℕ
  pub vehicle_id : Option ℕ
  pub org_vehicles : List VehicleItem
  pub services : List SelectedService
  pub products : List SelectedProduct
  pub manual_products : List ManualProductItemDto
  pub delivery_needed : Bool
  pub confirm_shown : Bool
  pub error : Option PageError
  pub sent : Option ℕ

-- `addService`: one more of it, or a new line
unfoldable pub plus_service : ServiceItem → List SelectedService → List SelectedService
plus_service s [] = record { id = s.id; name = s.name; price = s.price; quantity = 1 } ∷ []
plus_service s (x ∷ xs) =
    if x.id == s.id then record x { quantity = x.quantity + 1 } ∷ xs else x ∷ plus_service s xs

-- `addProduct`, and `qty` is at least 1
unfoldable pub plus_product : ProductItem → ℕ → List SelectedProduct → List SelectedProduct
plus_product p n [] =
    record { product_id = p.id; quantity = n; name = p.name; sale_price = p.sale_price } ∷ []
plus_product p n (x ∷ xs) =
    if x.product_id == p.id
    then record x { quantity = x.quantity + n } ∷ xs
    else x ∷ plus_product p n xs

-- `prev.filter((_, i) => i !== index)`
unfoldable pub remove_at {ℓ} : {A : Type ℓ} → ℕ → List A → List A
remove_at i [] = []
remove_at zero (x ∷ xs) = xs
remove_at (suc i) (x ∷ xs) = x ∷ remove_at i xs

-- `prev.map((p, i) => (i === index ? { ...p, quantity } : p))`
unfoldable pub set_quantity : ℕ → ℕ → List SelectedProduct → List SelectedProduct
set_quantity i n [] = []
set_quantity zero n (x ∷ xs) = record x { quantity = n } ∷ xs
set_quantity (suc i) n (x ∷ xs) = x ∷ set_quantity i n xs

-- `orderTotal`
unfoldable pub services_total : List SelectedService → ℕ
services_total [] = 0
services_total (s ∷ xs) = s.price * s.quantity + services_total xs

unfoldable pub products_total : List SelectedProduct → ℕ
products_total [] = 0
products_total (p ∷ xs) = p.sale_price * p.quantity + products_total xs

unfoldable pub manual_total : List ManualProductItemDto → ℕ
manual_total [] = 0
manual_total (m ∷ xs) = m.price * m.quantity + manual_total xs

unfoldable pub order_total : Page → ℕ
order_total p =
    services_total p.services + products_total p.products + manual_total p.manual_products

abbrev pub is_blank : Text → Bool
is_blank s = length (trim s) == 0

-- `s.trim() || undefined`
abbrev pub or_absent : Text → Option Text
or_absent s = if is_blank s then none else some (trim s)

abbrev pub is_cart_empty : Page → Bool
is_cart_empty p = length p.services == 0 && length p.products == 0 && length p.manual_products == 0

-- what is wrong with the telephone or the plate
abbrev pub contact_error : Page → Option PageError
contact_error p =
    if not (is_valid_phone (trim p.client_phone))
    then some bad_phone
    else if not (is_valid_plate (normalize_plate (trim p.car_number)))
    then some bad_plate
    else none

abbrev pub form_error : Page → Option PageError
form_error p =
    if is_blank p.client_name || is_blank p.client_phone || is_blank p.car_number
    then some fields_missing
    else elim (contact_error p) [
      | some e ↦ some e
      | none ↦ if is_cart_empty p then some nothing_chosen else none
    ]

abbrev pub show_confirm : Option PageError → Page → Page
show_confirm (some e) p = record p { error = some e }
show_confirm none p = record p { error = none; confirm_shown = true }

-- `handleContinue`
unfoldable pub handle_continue : Page → Page
handle_continue p = show_confirm (form_error p) p

-- `Array(n).fill(a)`
unfoldable pub copies : ℕ → ℕ → List ℕ
copies zero a = []
copies (suc n) a = a ∷ copies n a

-- `selectedServices.flatMap((s) => Array(s.quantity).fill(s.id))`
unfoldable pub service_ids_of : List SelectedService → List ℕ
service_ids_of [] = []
service_ids_of (s ∷ xs) = copies s.quantity s.id ++ service_ids_of xs

-- `isOrgVehicle && id ? id : undefined`
abbrev pub if_org : Bool → Option ℕ → Option ℕ
if_org b id = if b then id else none

abbrev pub to_dto : SelectedProduct → ProductItemDto
to_dto p = record { product_id = p.product_id; quantity = p.quantity }

-- the payload of handleConfirmSubmit; a list that is `undefined` there is empty here
unfoldable pub payload : Page → CreateOrderDto
payload p = record {
  client_name = trim p.client_name;
  client_phone = trim p.client_phone;
  car_number = normalize_plate (trim p.car_number);
  car_model = or_absent p.car_model;
  car_photo_url = or_absent p.car_photo_url;
  organization_id = if_org p.is_org_vehicle p.org_id;
  vehicle_id = if_org p.is_org_vehicle p.vehicle_id;
  delivery_needed = p.delivery_needed;
  service_ids = service_ids_of p.services;
  products = map to_dto p.products;
  manual_products = p.manual_products;
}

-- the form after an order was stored
abbrev pub cleared : ℕ → Page → Page
cleared id p = record p {
  client_name = [];
  client_phone = [];
  car_number = [];
  car_model = [];
  car_photo_url = [];
  is_org_vehicle = false;
  org_id = none;
  vehicle_id = none;
  org_vehicles = [];
  services = [];
  products = [];
  manual_products = [];
  delivery_needed = false;
  confirm_shown = false;
  error = none;
  sent = some id;
}

abbrev pub after_submit : Page → Option ℕ → Page
after_submit p none = record p { error = some not_saved }
after_submit p (some id) = cleared id p

abbrev pub submit_unless : (CreateOrderDto → Option ℕ) → Option PageError → Page → Page
submit_unless create_order (some e) p = record p { error = some e }
submit_unless create_order none p = after_submit p (create_order (payload p))

-- `handleConfirmSubmit`; the argument is `createOrder`, which returns the id of the order or throws
unfoldable pub handle_confirm_submit : (CreateOrderDto → Option ℕ) → Page → Page
unfolding payload
handle_confirm_submit create_order p = submit_unless create_order (contact_error p) p
