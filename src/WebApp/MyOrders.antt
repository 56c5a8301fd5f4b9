-- ===== src/WebApp/MyOrders.antt =====
-- webapp/app/my-orders/page.tsx: the list of one's own orders, its buttons, and what a press does to the
-- list and, by the routes of src/orders, to the database. An answer of the server always arrives. Dates and alerts are left out.
pub mod Calls
pub mod Sync
use ustabobo_bot.Base.{
  ℕ, Bool, true, false, ◌&&◌, ◌||◌, Option, none, some, List, [], ◌∷◌, ◌==◌, if◌then◌else◌,
}
use ustabobo_bot.Base.Exec.{Result, ok, err, internal_error}
use ustabobo_bot.Schema.{
  World, Env, Order, OrderStatus, draft, waiting_confirmation, working, accepted,
  received_by_driver, waiting_master_delivery_confirmation, completed, cancelled,
  waiting_customer_confirmation, delivered_by_driver,
}
use ustabobo_bot.OrderStatusMachine.{same_status}
use ustabobo_bot.Orders.Work.{cancel_order, finish}
use ustabobo_bot.Orders.Delivery.{driver_delivered_order}

pub record MyOrder : Type 0 where
  pub id : ℕ
  pub status : OrderStatus

-- `orders` and `confirmFinishOrderId`
pub record MyPage : Type 0 where
  pub orders : List MyOrder
  pub to_finish : Option ℕ

abbrev pub can_cancel : OrderStatus → Bool
can_cancel s = same_status s draft || same_status s waiting_confirmation

abbrev pub can_master_finish : OrderStatus → Bool
can_master_finish s = same_status s working

abbrev pub can_driver_finish : OrderStatus → Bool
can_driver_finish s = same_status s received_by_driver || same_status s accepted

-- the tabs of a driver
pub data Tab : Type 0 where
  active history every : Tab

abbrev pub is_in_tab : Tab → OrderStatus → Bool
is_in_tab active s =
    same_status s received_by_driver || same_status s waiting_master_delivery_confirmation
is_in_tab history s = same_status s working || same_status s completed
is_in_tab every s = true

unfoldable pub filtered_orders : Tab → List MyOrder → List MyOrder
filtered_orders tab [] = []
filtered_orders tab (o ∷ os) =
    let rest = filtered_orders tab os in if is_in_tab tab o.status then o ∷ rest else rest

-- `prev.map((o) => (o.id === orderId ? { ...o, status } : o))`
unfoldable pub set_status : ℕ → OrderStatus → List MyOrder → List MyOrder
set_status id s [] = []
set_status id s (o ∷ os) = (if o.id == id then record o { status = s } else o) ∷ set_status id s os

unfoldable pub find_row : ℕ → List MyOrder → Option MyOrder
find_row id [] = none
find_row id (o ∷ os) = if o.id == id then some o else find_row id os

-- a call of the server that returned is shown in the list, and one that threw is not
abbrev pub shown {ℓ} : {A : Type ℓ} → ℕ → OrderStatus → MyPage → Result A × World → MyPage × World
shown id s p (ok _, w) = (record p { orders = set_status id s p.orders }, w)
shown id s p (err _, w) = (p, w)

-- `handleCancel`
unfoldable pub handle_cancel : ℕ → ℕ → MyPage × World → MyPage × World
handle_cancel user id (p, w) = shown id cancelled p (cancel_order id user w)

-- `handleMasterFinishClick`
unfoldable pub handle_master_finish_click : MyOrder → MyPage → MyPage
handle_master_finish_click o p =
    if can_master_finish o.status then record p { to_finish = some o.id } else p

-- The route of `finish` in src/orders/orders.controller.ts answers with a link that has the bot's name.
-- Where the name is not configured it throws, after the handler has stored its changes.
abbrev pub with_link : Bool → Result ℕ × World → Result ℕ × World
with_link true x = x
with_link false (ok token, w) = (err internal_error, w)
with_link false (err e, w) = (err e, w)

abbrev pub finish_endpoint : Env → Bool → ℕ → ℕ → World → Result ℕ × World
finish_endpoint env named id user w = with_link named (finish env named id user w)

-- `handleMasterFinishConfirm`
abbrev pub finish_row : Env → Bool → ℕ → ℕ → Option MyOrder → MyPage × World → MyPage × World
finish_row env named user id none x = x
finish_row env named user id (some o) (p, w) =
    if can_master_finish o.status
    then shown id waiting_customer_confirmation p (finish_endpoint env named id user w)
    else (p, w)

abbrev pub finish_asked : Env → Bool → ℕ → Option ℕ → MyPage × World → MyPage × World
finish_asked env named user none x = x
finish_asked env named user (some id) (p, w) =
    finish_row env named user id (find_row id p.orders) (p, w)

unfoldable pub handle_master_finish_confirm : Env → Bool → ℕ → MyPage × World → MyPage × World
unfolding find_row
handle_master_finish_confirm env named user (p, w) =
    finish_asked env named user p.to_finish (record p { to_finish = none }, w)

-- `handleDriverFinish`
unfoldable pub handle_driver_finish : ℕ → MyOrder → MyPage × World → MyPage × World
handle_driver_finish user o (p, w) =
    if can_driver_finish o.status
    then shown o.id delivered_by_driver p (driver_delivered_order o.id user w)
    else (p, w)
