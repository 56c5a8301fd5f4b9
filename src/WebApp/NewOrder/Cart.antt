-- ===== src/WebApp/NewOrder/Cart.antt =====
-- webapp/app/new-order/page.tsx: what the user does on the page, as events, and the cart over every
-- sequence of them.
pub mod Edits
pub mod Lines
use ustabobo_bot.Base.{
  ℕ, zero, suc, ◌+◌, ◌*◌, ◌≤◌, ◌<◌, ◌≡◌, ◌≢◌, refl, Bool, true, false, not, ◌&&◌, ◌||◌, Option,
  none, some, List, [], ◌∷◌, ◌++◌, ◌==◌, ltb, leb, length, is_some, if◌then◌else◌, max, All, arith,
  Bool-cases, inl, inr, Option-cases,
}
use ustabobo_bot.Schema.{Text}
use ustabobo_bot.Text.{trim}
use ustabobo_bot.Orders.Draft.{ManualProductItemDto, CreateOrderDto}
use ustabobo_bot.WebApp.Validation.{normalize_plate}
use ustabobo_bot.WebApp.NewOrder.{
  SelectedService, SelectedProduct, ServiceItem, ProductItem, VehicleItem, Page, plus_service,
  plus_product, remove_at, set_quantity, is_blank, handle_continue, handle_confirm_submit,
  contact_error, form_error, after_submit,
}

-- the event of each control of the page
pub data Event : Type 0 where
  type_name type_phone type_car type_model set_photo : Text → Event
  leave_car : Event
  check_org check_delivery : Bool → Event
  choose_org : Option ℕ → Event
  vehicles_loaded : List VehicleItem → Event
  choose_vehicle : Option ℕ → Event
  vehicle_added : VehicleItem → Event
  add_service : ServiceItem → Event
  add_product : ProductItem → ℕ → Event
  remove_service remove_product remove_manual : ℕ → Event
  update_quantity : ℕ → ℕ → Event
  add_manual : Text → ℕ → ℕ → Event
  continue_form go_back confirm_form : Event

unfoldable pub find_vehicle : ℕ → List VehicleItem → Option VehicleItem
find_vehicle id [] = none
find_vehicle id (v ∷ vs) = if v.id == id then some v else find_vehicle id vs

-- the vehicle's data fill the fields of the car
abbrev pub fill_car : Option VehicleItem → Page → Page
fill_car none p = p
fill_car (some v) p = record p { car_number = v.plate_number; car_model = v.model }

abbrev pub select_vehicle : Option ℕ → Page → Page
select_vehicle none p = record p { vehicle_id = none; car_number = []; car_model = [] }
select_vehicle (some id) p =
    fill_car (find_vehicle id p.org_vehicles) (record p { vehicle_id = some id })

-- `addManualProduct`
abbrev pub plus_manual : Text → ℕ → ℕ → List ManualProductItemDto → List ManualProductItemDto
plus_manual name price quantity ms =
    if is_blank name || price == 0 || quantity == 0
    then ms
    else ms ++ record { name = trim name; price = price; quantity = quantity } ∷ []

module _ (create_order : CreateOrderDto → Option ℕ) where
  unfoldable pub step : Event → Page → Page
  step (type_name s) p = record p { client_name = s }
  step (type_phone s) p = record p { client_phone = s }
  step (type_car s) p = record p { car_number = s }
  step (type_model s) p = record p { car_model = s }
  step (set_photo s) p = record p { car_photo_url = s }
  step leave_car p =
      if is_blank p.car_number then p else record p { car_number = normalize_plate p.car_number }
  step (check_org true) p = record p { is_org_vehicle = true }
  step (check_org false) p = record p {
    is_org_vehicle = false;
    org_id = none;
    vehicle_id = none;
    org_vehicles = [];
  }
  step (check_delivery b) p = record p { delivery_needed = b }
  step (choose_org o) p = record p {
    org_id = o;
    vehicle_id = none;
    car_number = [];
    car_model = [];
    org_vehicles = if is_some o then p.org_vehicles else [];
  }
  step (vehicles_loaded vs) p = record p { org_vehicles = vs }
  step (choose_vehicle o) p = select_vehicle o p
  step (vehicle_added v) p = record p {
    org_vehicles = p.org_vehicles ++ v ∷ [];
    vehicle_id = some v.id;
    car_number = v.plate_number;
    car_model = v.model;
  }
  step (add_service s) p = record p { services = plus_service s p.services }
  step (add_product x n) p = record p { products = plus_product x (max 1 n) p.products }
  step (remove_service i) p = record p { services = remove_at i p.services }
  step (remove_product i) p = record p { products = remove_at i p.products }
  step (remove_manual i) p = record p { manual_products = remove_at i p.manual_products }
  step (update_quantity i n) p =
      if ltb n 1 then p else record p { products = set_quantity i n p.products }
  step (add_manual name price quantity) p = record p {
    manual_products = plus_manual name price quantity p.manual_products;
  }
  step continue_form p = handle_continue p
  step go_back p = record p { confirm_shown = false; error = none }
  step confirm_form p = handle_confirm_submit create_order p

  unfoldable pub steps : List Event → Page → Page
  steps [] p = p
  steps (e ∷ es) p = steps es (step e p)

-- no line of the list has this id
abbrev pub NoService : ℕ → List SelectedService → Type 0
NoService id = All (λ s. s.id ≢ id)

abbrev pub NoProduct : ℕ → List SelectedProduct → Type 0
NoProduct id = All (λ p. p.product_id ≢ id)

-- each service and each product has one line, and every line has a quantity
abbrev pub AreLines : List SelectedService → Type 0
AreLines [] = Unit
AreLines (s ∷ xs) = (0 < s.quantity) × NoService s.id xs × AreLines xs

abbrev pub AreProducts : List SelectedProduct → Type 0
AreProducts [] = Unit
AreProducts (p ∷ xs) = (0 < p.quantity) × NoProduct p.product_id xs × AreProducts xs

-- a name, a price and a quantity, as the server's validation wants them
abbrev pub IsManual : ManualProductItemDto → Type 0
IsManual m = (length m.name ≢ 0) × (0 < m.price) × (0 < m.quantity)

pub record IsCart (p : Page) : Type 0 where
  pub services : AreLines p.services
  pub products : AreProducts p.products
  pub manual : All IsManual p.manual_products
