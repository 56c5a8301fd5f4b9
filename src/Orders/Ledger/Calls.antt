-- ===== src/Orders/Ledger/Calls.antt =====
-- The handlers of src/orders/orders.service.ts as postings to the ledger.
use ustabobo_bot.Base.{ℕ, Bool, Option, arith}
use ustabobo_bot.Base.Int.{ℤ}
use ustabobo_bot.Schema.{World, Env, Text}
use ustabobo_bot.Orders.Ledger.{SameMoney}
use ustabobo_bot.Orders.Draft.{CreateOrderDto, create_draft, check_organization, check_items}
use ustabobo_bot.Orders.Location.{set_location, add_location_to_draft, add_manual_product}
use ustabobo_bot.Orders.Work.{confirm, master_start_work, cancel_order, finish, receive}
use ustabobo_bot.Orders.Delivery.{driver_accept, driver_finish, driver_delivered_order}

pub confirm-SameMoney : (id m : ℕ) (w : World) → SameMoney w (confirm id m w).1
unfolding confirm
confirm-SameMoney id m w = ground arith

pub master_start_work-SameMoney : (id m : ℕ) (w : World) → SameMoney w (master_start_work id m w).1
unfolding master_start_work
master_start_work-SameMoney id m w = ground arith

pub cancel_order-SameMoney : (id m : ℕ) (w : World) → SameMoney w (cancel_order id m w).1
unfolding cancel_order
cancel_order-SameMoney id m w = ground arith

pub receive-SameMoney : (id m : ℕ) (w : World) → SameMoney w (receive id m w).1
unfolding receive
receive-SameMoney id m w = ground arith

pub finish-SameMoney :
    (env : Env) (named : Bool) (id m : ℕ) (w : World) → SameMoney w (finish env named id m w).1
unfolding finish
finish-SameMoney env named id m w = ground arith

pub driver_accept-SameMoney : (id d : ℕ) (w : World) → SameMoney w (driver_accept id d w).1
unfolding driver_accept
driver_accept-SameMoney id d w = ground arith

pub driver_finish-SameMoney : (id d : ℕ) (w : World) → SameMoney w (driver_finish id d w).1
unfolding driver_finish
driver_finish-SameMoney id d w = ground arith

pub driver_delivered_order-SameMoney :
    (id d : ℕ) (w : World) → SameMoney w (driver_delivered_order id d w).1
unfolding driver_delivered_order
driver_delivered_order-SameMoney id d w = ground arith

pub set_location-SameMoney :
    (id m : ℕ) (lat lng : ℤ) (w : World) → SameMoney w (set_location id m lat lng w).1
unfolding set_location
set_location-SameMoney id m lat lng w = ground arith

pub add_location_to_draft-SameMoney :
    (tg : ℕ) (lat lng : ℤ) (w : World) → SameMoney w (add_location_to_draft tg lat lng w).1
unfolding add_location_to_draft set_location
add_location_to_draft-SameMoney tg lat lng w = ground arith

pub add_manual_product-SameMoney :
    (env : Env) (id m : ℕ) (name : Text) (price quantity : Option ℤ) (w : World)
    → SameMoney w (add_manual_product env id m name price quantity w).1
unfolding add_manual_product
add_manual_product-SameMoney env id m name price quantity w = ground arith

pub create_draft-SameMoney :
    (env : Env) (m : ℕ) (dto : CreateOrderDto) (w : World)
    → SameMoney w (create_draft env m dto w).1
unfolding create_draft check_organization check_items
create_draft-SameMoney env m dto w = ground arith
