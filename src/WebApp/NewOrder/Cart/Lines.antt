-- ===== src/WebApp/NewOrder/Cart/Lines.antt =====
-- The lines of the cart over every sequence of events.
use ustabobo_bot.Base.{
  ℕ, ◌≡◌, refl, true, false, Option, none, some, List, [], ◌∷◌, ltb, max, arith, Bool-cases, inl,
  inr,
}
use ustabobo_bot.Orders.Draft.{CreateOrderDto}
use ustabobo_bot.WebApp.NewOrder.{
  VehicleItem, Page, is_blank, handle_continue, handle_confirm_submit, contact_error, form_error,
  after_submit,
}
use ustabobo_bot.WebApp.NewOrder.{PageError, submit_unless, show_confirm, payload}
use ustabobo_bot.WebApp.NewOrder.Cart.{
  Event, type_name, type_phone, type_car, type_model, set_photo, leave_car, check_org,
  check_delivery, choose_org, vehicles_loaded, choose_vehicle, vehicle_added, add_service,
  add_product, remove_service, remove_product, remove_manual, update_quantity, add_manual,
  continue_form, go_back, confirm_form, find_vehicle, fill_car, select_vehicle, step, steps,
  IsManual, IsCart,
}
use ustabobo_bot.WebApp.NewOrder.Cart.Edits.{
  plus_service-AreLines, plus_product-AreProducts, remove_at-All, remove_at-AreLines,
  remove_at-AreProducts, set_quantity-AreProducts, plus_manual-IsManual,
}

-- a page whose cart is that of another
same-IsCart :
    (p q : Page)
    → q.services ≡ p.services
    → q.products ≡ p.products
    → q.manual_products ≡ p.manual_products
    → IsCart p
    → IsCart q
same-IsCart p q e f g h = record {
  services = rw e h.services;
  products = rw f h.products;
  manual = rw g h.manual;
}

after_submit-IsCart : (o : Option ℕ) (p : Page) → IsCart p → IsCart (after_submit p o)
after_submit-IsCart none p h = record {
  services = h.services;
  products = h.products;
  manual = h.manual;
}
after_submit-IsCart (some id) p h = record { services = tt; products = tt; manual = tt }

module _ (create_order : CreateOrderDto → Option ℕ) where
  submit_unless-IsCart :
      (o : Option PageError) (p : Page) → IsCart p → IsCart (submit_unless create_order o p)
  submit_unless-IsCart (some e) p h = record {
    services = h.services;
    products = h.products;
    manual = h.manual;
  }
  submit_unless-IsCart none p h = after_submit-IsCart (create_order (payload p)) p h

  show_confirm-IsCart : (o : Option PageError) (p : Page) → IsCart p → IsCart (show_confirm o p)
  show_confirm-IsCart (some e) p h = record {
    services = h.services;
    products = h.products;
    manual = h.manual;
  }
  show_confirm-IsCart none p h = record {
    services = h.services;
    products = h.products;
    manual = h.manual;
  }

  fill_car-IsCart : (o : Option VehicleItem) (p : Page) → IsCart p → IsCart (fill_car o p)
  fill_car-IsCart none p h = h
  fill_car-IsCart (some v) p h = record {
    services = h.services;
    products = h.products;
    manual = h.manual;
  }

  select_vehicle-IsCart : (o : Option ℕ) (p : Page) → IsCart p → IsCart (select_vehicle o p)
  select_vehicle-IsCart none p h = record {
    services = h.services;
    products = h.products;
    manual = h.manual;
  }
  select_vehicle-IsCart (some id) p h =
      fill_car-IsCart (find_vehicle id p.org_vehicles) (record p { vehicle_id = some id })
        (record { services = h.services; products = h.products; manual = h.manual })

  step-IsCart : (e : Event) (p : Page) → IsCart p → IsCart (step create_order e p)
  unfolding step handle_continue handle_confirm_submit
  step-IsCart (type_name s) p h = same-IsCart p _ refl refl refl h
  step-IsCart (type_phone s) p h = same-IsCart p _ refl refl refl h
  step-IsCart (type_car s) p h = same-IsCart p _ refl refl refl h
  step-IsCart (type_model s) p h = same-IsCart p _ refl refl refl h
  step-IsCart (set_photo s) p h = same-IsCart p _ refl refl refl h
  step-IsCart leave_car p h = elim (Bool-cases (is_blank p.car_number)) [
    | inl blank ↦ rw blank h
    | inr typed ↦ rw typed (same-IsCart p _ refl refl refl h)
  ]
  step-IsCart (check_org true) p h = same-IsCart p _ refl refl refl h
  step-IsCart (check_org false) p h = same-IsCart p _ refl refl refl h
  step-IsCart (check_delivery b) p h = same-IsCart p _ refl refl refl h
  step-IsCart (choose_org o) p h = same-IsCart p _ refl refl refl h
  step-IsCart (vehicles_loaded vs) p h = same-IsCart p _ refl refl refl h
  step-IsCart (choose_vehicle o) p h = select_vehicle-IsCart o p h
  step-IsCart (vehicle_added v) p h = same-IsCart p _ refl refl refl h
  step-IsCart (add_service s) p h = record {
    services = plus_service-AreLines s p.services h.services;
    products = h.products;
    manual = h.manual;
  }
  step-IsCart (add_product x n) p h = record {
    services = h.services;
    products = plus_product-AreProducts x (max 1 n) p.products (omega arith) h.products;
    manual = h.manual;
  }
  step-IsCart (remove_service i) p h = record {
    services = remove_at-AreLines i p.services h.services;
    products = h.products;
    manual = h.manual;
  }
  step-IsCart (remove_product i) p h = record {
    services = h.services;
    products = remove_at-AreProducts i p.products h.products;
    manual = h.manual;
  }
  step-IsCart (remove_manual i) p h = record {
    services = h.services;
    products = h.products;
    manual = remove_at-All IsManual i p.manual_products h.manual;
  }
  step-IsCart (update_quantity i n) p h = elim (Bool-cases (ltb n 1)) [
    | inl refused ↦ rw refused h
    | inr some_of ↦ rw some_of (record {
      services = h.services;
      products = set_quantity-AreProducts i n p.products (ground arith) h.products;
      manual = h.manual;
    })
  ]
  step-IsCart (add_manual name price quantity) p h = record {
    services = h.services;
    products = h.products;
    manual = plus_manual-IsManual name price quantity p.manual_products h.manual;
  }
  step-IsCart continue_form p h = show_confirm-IsCart (form_error p) p h
  step-IsCart go_back p h = same-IsCart p _ refl refl refl h
  step-IsCart confirm_form p h = submit_unless-IsCart (contact_error p) p h

  -- Whatever the user does on the page, and however the server answers, each service and each
  -- product has one line of the cart, no line has the quantity 0, and every product typed in by hand
  -- has a name, a price and a quantity, if it was so before.
  pub steps-IsCart : (es : List Event) (p : Page) → IsCart p → IsCart (steps create_order es p)
  unfolding steps
  steps-IsCart [] p h = h
  steps-IsCart (e ∷ es) p h = steps-IsCart es (step create_order e p) (step-IsCart e p h)
