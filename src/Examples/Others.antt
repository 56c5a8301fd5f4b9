-- ===== src/Examples/Others.antt =====
-- The theorems on the administrator's orders, the log-in and the telephone numbers at small inputs.
use ustabobo_bot.Base.{ℕ, ◌≡◌, refl, true, false, none, some, List, [], ◌∷◌, arith}
use ustabobo_bot.Base.Int.{pos}
use ustabobo_bot.Base.Table.{lookup, modify, find_first}
use ustabobo_bot.Schema.{World, Text, Order, User, service, master, driver}
use ustabobo_bot.Examples.Shop.{shop, staff, env_at, request}
use ustabobo_bot.Orders.Draft.{draft_order}
use ustabobo_bot.Orders.Ledger.{IsBalanced}
use ustabobo_bot.AdminOrders.{UpdateOrderDto, ItemRow}
use ustabobo_bot.AdminOrders.Recalculation.{find_fee, recalculate_order_fees}
use ustabobo_bot.AdminOrders.Recalculation.Balance.{AreTheirs, recalculate_order_fees-IsBalanced}
use ustabobo_bot.Orders.Completion.{master_entry, complete}
use ustabobo_bot.Text.{trim, same_text, is_space, trim_start, trim_end}
use ustabobo_bot.AuthScene.{Wizard, step_password, failed, held_by_other}
use ustabobo_bot.AuthScene.Lock.{Attempt, try_all, third_failure-try_all}
use ustabobo_bot.AuthScene.Access.{Entitled, step_password-Entitled}

-- a completed order whose master has been paid three so'm
abbrev done_row : Order
done_row = complete 8 (record (draft_order (env_at 5 100) 2 request) { driver_id = some 4 })

abbrev paid_shop : World
paid_shop = record shop {
  users = (2, record (staff master 300_000) { balance = pos 300 }) ∷ (4, staff driver 500_000) ∷ [];
  transactions = (60, master_entry 100 2 300) ∷ [];
  orders = (100, done_row) ∷ [];
}

paid_shop-IsBalanced : IsBalanced paid_shop.users paid_shop.transactions
unfolding lookup
paid_shop-IsBalanced u row h = ground arith

paid_shop-AreTheirs : AreTheirs 100 done_row paid_shop
unfolding find_fee find_first
paid_shop-AreTheirs = record {
  of_master = λ k t h. ground arith;
  of_driver = λ k t h. ground arith;
}

recalculate_order_fees-IsBalanced_example :
    IsBalanced
      (recalculate_order_fees (env_at 9 400) 100 paid_shop).1.users
      (recalculate_order_fees (env_at 9 400) 100 paid_shop).1.transactions
unfolding lookup
recalculate_order_fees-IsBalanced_example =
    recalculate_order_fees-IsBalanced (env_at 9 400) 100 paid_shop done_row refl (refl, tt)
      paid_shop-AreTheirs paid_shop-IsBalanced

abbrev one_row : List ItemRow
one_row =
    record {
      id = none;
      item_type = service;
      service_id = some 30;
      product_id = none;
      item_name = none;
      quantity = 1;
      price_at_time = 700;
    }
    ∷ []

abbrev edit : UpdateOrderDto
edit = record {
  master_id = some 2;
  client_name = none;
  client_phone = none;
  car_number = none;
  car_model = none;
  organization_id = some none;
  vehicle_id = none;
  delivery_needed = some false;
  order_items = some one_row;
}

-- an account with two wrong passwords, and the same with a lock
abbrev usta : User
usta = record (staff master 300_000) {
  login = b'u' ∷ [];
  password_hash = b'p' ∷ [];
  pin_fail_count = 2;
}

abbrev usta_locked : User
usta_locked = failed 1_000 usta

abbrev with_user : User → World
with_user u = record shop { users = (2, u) ∷ [] }

abbrev session : Wizard
session = record { login = some (b'u' ∷ []); cursor = 1; is_inside = true }

abbrev attempt : ℕ → Text → Attempt
attempt now text = record { now = now; chat = some 77; text = text; wizard = session }

third_failure-try_all_example :
    try_all same_text (attempt 1_000 (b'x' ∷ []) ∷ attempt 2_000 (b'p' ∷ []) ∷ []) (with_user usta)
    ≡ record (with_user usta) { users = modify 2 (failed 1_000) (with_user usta).users }
unfolding find_first trim is_space trim_start trim_end lookup same_text
third_failure-try_all_example =
    third_failure-try_all same_text (attempt 1_000 (b'x' ∷ [])) (attempt 2_000 (b'p' ∷ []) ∷ [])
      (b'u' ∷ []) (with_user usta) 2 usta (refl, tt) refl refl refl refl refl (ground arith)
      ((refl, ground arith), tt)

step_password-Entitled_example : Entitled same_text 9 (b'p' ∷ []) session (with_user usta) master
unfolding step_password find_first trim is_space trim_start trim_end held_by_other same_text
step_password-Entitled_example =
    step_password-Entitled same_text 9 (some 77) (b'p' ∷ []) session (with_user usta) master refl

abbrev typed : Text
typed = b'1' ∷ b'2' ∷ b'-' ∷ b'3' ∷ b'4' ∷ b'5' ∷ b'6' ∷ b'7' ∷ []

abbrev digits : Text
digits = b'1' ∷ b'2' ∷ b'3' ∷ b'4' ∷ b'5' ∷ b'6' ∷ b'7' ∷ []
