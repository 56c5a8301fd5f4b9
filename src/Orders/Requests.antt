-- ===== src/Orders/Requests.antt =====
-- The calls that the controllers and the bot make on `OrdersService`
-- (src/orders/orders.controller.ts, src/bot/bot.update.ts), as data, and what each does.
pub mod Validity
pub mod Money
pub mod Races
pub mod Rights
use ustabobo_bot.Base.{ℕ, Bool, Option, List, [], ◌∷◌}
use ustabobo_bot.Base.Int.{ℤ}
use ustabobo_bot.Schema.{World, Env, Text}
use ustabobo_bot.Orders.Draft
use ustabobo_bot.Orders.Draft.{CreateOrderDto}
use ustabobo_bot.Orders.Location
use ustabobo_bot.Orders.Work
use ustabobo_bot.Orders.Delivery
use ustabobo_bot.Orders.Completion

pub data Request : Type 0 where
  create_draft : ℕ → CreateOrderDto → Request
  set_location : ℕ → ℕ → ℤ → ℤ → Request
  add_location_to_draft : ℕ → ℤ → ℤ → Request
  add_manual_product : ℕ → ℕ → Text → Option ℤ → Option ℤ → Request
  confirm master_start_work cancel_order receive : ℕ → ℕ → Request
  finish : Bool → ℕ → ℕ → Request
  driver_accept driver_finish driver_delivered_order : ℕ → ℕ → Request
  master_confirm_delivery : ℕ → ℕ → Bool → Request
  customer_confirm : ℕ → Request

-- the state after a call, whether it returned or threw
unfoldable pub serve : Env → Request → World → World
serve env (create_draft m dto) w = (Draft.create_draft env m dto w).1
serve env (set_location id m lat lng) w = (Location.set_location id m lat lng w).1
serve env (add_location_to_draft tg lat lng) w = (Location.add_location_to_draft tg lat lng w).1
serve env (add_manual_product id m name price quantity) w =
    (Location.add_manual_product env id m name price quantity w).1
serve env (confirm id m) w = (Work.confirm id m w).1
serve env (master_start_work id m) w = (Work.master_start_work id m w).1
serve env (cancel_order id m) w = (Work.cancel_order id m w).1
serve env (receive id m) w = (Work.receive id m w).1
serve env (finish named id m) w = (Work.finish env named id m w).1
serve env (driver_accept id d) w = (Delivery.driver_accept id d w).1
serve env (driver_finish id d) w = (Delivery.driver_finish id d w).1
serve env (driver_delivered_order id d) w = (Delivery.driver_delivered_order id d w).1
serve env (master_confirm_delivery id m yes_or_no) w =
    (Delivery.master_confirm_delivery env id m yes_or_no w).1
serve env (customer_confirm token) w = (Completion.customer_confirm env token w).1

-- calls one after the other, each with its clock and its fresh ids
unfoldable pub serve_all : List (Env × Request) → World → World
serve_all [] w = w
serve_all ((env, r) ∷ rest) w = serve_all rest (serve env r w)
