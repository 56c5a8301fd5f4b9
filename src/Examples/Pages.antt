-- ===== src/Examples/Pages.antt =====
-- The form of a new order at a small database.
use ustabobo_bot.Base.{
  ℕ, zero, suc, ◌≡◌, ◌≢◌, refl, ◌+◌, true, false, none, some, List, [], ◌∷◌, arith, inl,
}
use ustabobo_bot.Base.Table.{lookup, find_many}
use ustabobo_bot.Base.Exec.{ok}
use ustabobo_bot.Text.{codes}
use ustabobo_bot.Prisma.{items_of}
use ustabobo_bot.PriceCalculator.{calculate_order_total, delivery_price}
use ustabobo_bot.Orders.{totals_of}
use ustabobo_bot.Orders.Draft.{create_draft, check_organization}
use ustabobo_bot.Examples.Shop.{shop, env_at}
use ustabobo_bot.WebApp.NewOrder.{Page, payload, order_total}
use ustabobo_bot.WebApp.NewOrder.Cart.{
  Event, type_name, add_service, add_product, update_quantity, add_manual, continue_form,
  confirm_form, steps, IsCart,
}
use ustabobo_bot.WebApp.NewOrder.Cart.Lines.{steps-IsCart}
use ustabobo_bot.WebApp.NewOrder.Loading.{
  Answer, received, network_error, Shown, load_init, Ends, load_init-Ends,
}
use ustabobo_bot.WebApp.NewOrder.Submission.{payload-twice}
use ustabobo_bot.WebApp.NewOrder.Submission.Accepted.{payload-order_total}

abbrev blank : Page
blank = record {
  client_name = [];
  client_phone = [];
  car_number = [];
  car_model = [];
  car_photo_url = [];
  is_org_vehicle = false;
  org_id = none;
  vehicle_id = none;
  org_vehicles = [];
  services = [];
  products = [];
  manual_products = [];
  delivery_needed = false;
  confirm_shown = false;
  error = none;
  sent = none;
}

-- one service, two of a product, and a product typed in by hand, to be delivered
abbrev filled : Page
filled = record blank {
  client_name = codes "Ali";
  client_phone = codes "90 123 45 67";
  car_number = codes "01 a 123 aa";
  delivery_needed = true;
  services = record { id = 30; name = []; price = 10_000_000; quantity = 1 } ∷ [];
  products = record { product_id = 40; quantity = 2; name = []; sale_price = 5_000_000 } ∷ [];
  manual_products = record { name = codes "Moy"; price = 300; quantity = 1 } ∷ [];
}

abbrev doubled : Page
doubled = record filled {
  services = record { id = 30; name = []; price = 10_000_000; quantity = 2 } ∷ [];
}

payload-order_total_example :
    ((create_draft (env_at 5 600) 2 (payload filled) shop).0 ≡ ok 600)
    × (calculate_order_total
          (totals_of 600 (create_draft (env_at 5 600) 2 (payload filled) shop).1)
          true
        ≡ order_total filled + delivery_price)
unfolding payload lookup check_organization items_of find_many
payload-order_total_example =
    payload-order_total (env_at 5 600) 2 shop filled (refl, tt)
      (record {
        services = (omega arith, tt, tt);
        products = (omega arith, tt, tt);
        manual = ((λ h. omega arith, omega arith, omega arith), tt);
      })
      ((refl, refl, refl), tt) ((refl, refl), tt) refl refl refl

payload-twice_example :
    ((id : ℕ) → (create_draft (env_at 5 600) 2 (payload doubled) shop).0 ≢ ok id)
    × ((create_draft (env_at 5 600) 2 (payload doubled) shop).1 ≡ shop)
unfolding lookup
payload-twice_example = payload-twice (env_at 5 600) 2 shop doubled (refl, tt) (inl (omega arith))

-- the user chooses the service twice, changes a quantity, and sends the order to a server that fails
abbrev clicks : List Event
clicks =
    type_name (codes "Ali")
    ∷ add_service (record { id = 30; name = []; price = 10_000_000 })
    ∷ add_service (record { id = 30; name = []; price = 10_000_000 })
    ∷ add_product (record { id = 40; name = []; sale_price = 5_000_000 }) 0
    ∷ update_quantity 0 3
    ∷ add_manual (codes " ") 5 1
    ∷ continue_form
    ∷ confirm_form
    ∷ []

steps-IsCart_example : IsCart (steps (λ dto. none) clicks blank)
steps-IsCart_example =
    steps-IsCart (λ dto. none) clicks blank (record { services = tt; products = tt; manual = tt })

-- a server that is not reached twice
abbrev slow : ℕ → Answer ℕ
slow zero = network_error
slow (suc zero) = network_error
slow (suc (suc n)) = received 5

load_init-Ends_example : (r : Shown ℕ × ℕ) × (load_init slow ≡ some r) × Ends slow r
load_init-Ends_example = load_init-Ends slow
