-- ===== src/Orders/Requests/Rights.antt =====
-- Who may do what.
use ustabobo_bot.Base.{ℕ, Option, none, some}
use ustabobo_bot.Orders.Location.{set_location, add_manual_product}
use ustabobo_bot.Orders.Work.{confirm, master_start_work, cancel_order, receive, finish}
use ustabobo_bot.Orders.Delivery.{
  driver_accept, driver_finish, driver_delivered_order, master_confirm_delivery,
}
use ustabobo_bot.Orders.Requests.{Request}

-- the order and the person of a call that only the order's master may make
abbrev pub as_master : Request → Option (ℕ × ℕ)
as_master (Request.set_location id m _ _) = some (id, m)
as_master (Request.add_manual_product id m _ _ _) = some (id, m)
as_master (Request.confirm id m) = some (id, m)
as_master (Request.master_start_work id m) = some (id, m)
as_master (Request.cancel_order id m) = some (id, m)
as_master (Request.receive id m) = some (id, m)
as_master (Request.finish _ id m) = some (id, m)
as_master (Request.master_confirm_delivery id m _) = some (id, m)
as_master _ = none

-- the same for its driver
abbrev pub as_driver : Request → Option (ℕ × ℕ)
as_driver (Request.driver_finish id d) = some (id, d)
as_driver (Request.driver_delivered_order id d) = some (id, d)
as_driver _ = none

-- the order of a call that takes a broadcast order, which is open to everyone
abbrev pub as_taker : Request → Option ℕ
as_taker (Request.driver_accept id d) = some id
as_taker _ = none
