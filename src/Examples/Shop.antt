-- ===== src/Examples/Shop.antt =====
-- A small shop: a boss, two masters and a driver, one organization with a vehicle, two products.
use ustabobo_bot.Base.{ℕ, ◌+◌, ◌≡◌, refl, true, none, some, List, [], ◌∷◌, map}
use ustabobo_bot.Base.Int.{ℤ, pos, ◌+ℤ◌}
use ustabobo_bot.Base.Table.{lookup, modify, find_first, find_many}
use ustabobo_bot.OrderStatusMachine.{can_transition}
use ustabobo_bot.PriceCalculator.{calculate_order_total, items_total}
use ustabobo_bot.Orders.{totals_of}
use ustabobo_bot.Schema.{World, Env, User, Product, completed, Role, boss, master, driver}
use ustabobo_bot.Orders.Draft.{
  CreateOrderDto, create_draft, check_organization, check_items, item_data, number_rows,
}
use ustabobo_bot.Orders.Location.{set_location}
use ustabobo_bot.Orders.Work.{confirm, finish}
use ustabobo_bot.Orders.Delivery.{
  driver_accept, driver_finish, master_confirm_delivery, record_delivery, credit_delivery,
}
use ustabobo_bot.Orders.Completion.{
  customer_confirm, find_by_token, settle_order, post_fees, take_stock, take_all, check_and_alert,
}
use ustabobo_bot.Orders.Figures.{read_settlement}

abbrev pub staff : Role → ℕ → User
staff r percent = record {
  fullname = b'A' ∷ [];
  phone = [];
  login = [];
  password_hash = [];
  role = r;
  tg_id = some percent;
  percent_rate = percent;
  balance = pos 0;
  is_active = true;
  is_authenticated = true;
  last_authenticated_at = none;
  locked_until = none;
  pin_fail_count = 0;
}

abbrev pub part : ℕ → ℕ → Product
part price stock = record {
  name = [];
  cost_price = price;
  sale_price = price;
  stock_count = stock;
  min_limit = 2;
  is_active = true;
  supplier_id = none;
}

-- percentages in ten-thousandths: the master gets 30%, the driver 50%
abbrev pub shop : World
shop = record {
  users =
      (1, staff boss 0)
      ∷ (2, staff master 300_000)
      ∷ (3, staff master 250_000)
      ∷ (4, staff driver 500_000)
      ∷ [];
  transactions = [];
  organizations = (10, record { name = []; balance_due = 0; is_active = true }) ∷ [];
  vehicles = (20, record { org_id = 10; plate_number = []; model = []; is_active = true }) ∷ [];
  services = (30, record { name = []; price = 10_000_000; is_active = true }) ∷ [];
  products = (40, part 5_000_000 5) ∷ (41, part 1_000 1) ∷ [];
  price_histories = [];
  suppliers = (50, record { fullname = []; is_active = true }) ∷ [];
  purchases = [];
  payments = [];
  orders = [];
  order_items = [];
  order_events = [];
  audit_logs = [];
  outbox = [];
  broadcast_queue = [];
}

-- a clock, and ids counted from a start
abbrev pub env_at : ℕ → ℕ → Env
env_at now start = record { now = now; uuid = λ n. start + n }

abbrev pub request : CreateOrderDto
request = record {
  client_name = [];
  client_phone = [];
  car_number = [];
  car_model = none;
  car_photo_url = none;
  organization_id = some 10;
  vehicle_id = some 20;
  delivery_needed = true;
  service_ids = 30 ∷ [];
  products = record { product_id = 40; quantity = 2 } ∷ [];
  manual_products = record { name = []; price = 100; quantity = 3 } ∷ [];
}

abbrev pub drafted : World
drafted = (create_draft (env_at 5 100) 2 request shop).1

abbrev pub located : World
located = (set_location 100 2 (pos 41) (pos 69) drafted).1

abbrev pub confirmed_order : World
confirmed_order = (confirm 100 2 located).1

abbrev pub accepted_order : World
accepted_order = (driver_accept 100 4 confirmed_order).1

abbrev pub finished_delivery : World
finished_delivery = (driver_finish 100 4 accepted_order).1

abbrev pub working_order : World
working_order = (master_confirm_delivery (env_at 6 200) 100 2 true finished_delivery).1

abbrev pub finished_order : World
finished_order = (finish (env_at 7 300) true 100 2 working_order).1

abbrev pub completed_order : World
completed_order = (customer_confirm (env_at 8 400) 300 finished_order).1

abbrev pub balances : World → List ℤ
balances w = map (λ (_, u). u.balance) w.users

-- The whole way of a delivered order: 30% of 100 000 so'm to the master, the delivery fee and 50%
-- of it to the driver, the total to the organization, and two parts out of the store.
pub life_of_an_order :
    (balances completed_order ≡ pos 0 ∷ pos 3_000_000 ∷ pos 0 ∷ pos 4_500_000 ∷ [])
    × (map (λ (_, o). o.balance_due) completed_order.organizations ≡ 23_000_300 ∷ [])
    × (map (λ (_, p). p.stock_count) completed_order.products ≡ 3 ∷ 1 ∷ [])
    × (map (λ (_, o). o.status) completed_order.orders ≡ completed ∷ [])
unfolding create_draft check_organization check_items item_data number_rows set_location confirm
    driver_accept driver_finish master_confirm_delivery record_delivery credit_delivery finish
    customer_confirm find_by_token read_settlement settle_order post_fees take_stock take_all
    check_and_alert find_first lookup can_transition modify find_many ◌+ℤ◌ calculate_order_total
    items_total totals_of
life_of_an_order = (refl, refl, refl, refl)
