-- ===== src/AdminOrders.antt =====
-- src/admin/admin.service.ts: what the administrator does to orders: updateOrderStatus, updateOrder
-- and recalculateOrderFees.
pub mod Items
pub mod Creation
pub mod Recalculation
use ustabobo_bot.Base.{
  ℕ, suc, Bool, true, false, not, ◌&&◌, Option, none, some, List, [], ◌∷◌, map, if◌then◌else◌,
  or_else, is_some, includes,
}
use ustabobo_bot.Base.Table.{Table, lookup, modify, erase}
use ustabobo_bot.Base.Exec.{
  Exec, bad_request, record_missing, user_missing, pure, gets, put, throw_if, ◌>>=◌, ◌>>◌,
}
use ustabobo_bot.Schema.{
  World, Env, Text, Order, OrderItem, User, OrderStatus, completed, OrderItemType, Role, master,
}
use ustabobo_bot.Prisma.{update_order, items_of, updated}
use ustabobo_bot.OrderStatusMachine.{same_status}
use ustabobo_bot.PriceCalculator.{calculate_order_total}
use ustabobo_bot.Schema.{AuditAction, order_status_update, order_update}
use ustabobo_bot.Base.Exec.{foreign_key_violation}
use ustabobo_bot.Orders.{find_order, totals_of}

-- `audit.log`
abbrev pub audit : Option ℕ → AuditAction → ℕ → Exec World (Unit {0})
audit user action entity = put (λ w. record w {
  audit_logs = record { user_id = user; action = action; entity_id = entity } ∷ w.audit_logs;
})

abbrev pub with_status : ℕ → OrderStatus → Order → Order
with_status now status o = record o {
  status = status;
  completed_at = if same_status status completed then some now else o.completed_at;
}

-- `updateOrderStatus` asks no transition table
unfoldable pub update_order_status : Env → Option ℕ → ℕ → OrderStatus → Exec World Order
update_order_status env user id status = do
  find_order id
  updated ← update_order id (with_status env.now status)
  audit user (order_status_update status) id
  pure updated

-- `AdminUpdateOrderDto`: a field that is absent is not changed; an organization or a vehicle may
-- be given as nothing, which disconnects it
pub record ItemRow : Type 0 where
  pub id : Option ℕ
  pub item_type : OrderItemType
  pub service_id : Option ℕ
  pub product_id : Option ℕ
  pub item_name : Option Text
  pub quantity : ℕ
  pub price_at_time : ℕ

pub record UpdateOrderDto : Type 0 where
  pub master_id : Option ℕ
  pub client_name : Option Text
  pub client_phone : Option Text
  pub car_number : Option Text
  pub car_model : Option Text
  pub organization_id : Option (Option ℕ)
  pub vehicle_id : Option (Option ℕ)
  pub delivery_needed : Option Bool
  pub order_items : Option (List ItemRow)

abbrev pub is_master_role : Role → Bool
is_master_role master = true
is_master_role _ = false

abbrev pub is_master : Option User → Bool
is_master none = false
is_master (some u) = is_master_role u.role

abbrev pub check_master : Option ℕ → Exec World (Unit {0})
check_master none = pure tt
check_master (some m) = do
  found ← gets (λ w. is_master (lookup m w.users))
  throw_if (not found) (bad_request user_missing)

abbrev pub item_of : ℕ → ItemRow → OrderItem
item_of order r = record {
  order_id = order;
  item_type = r.item_type;
  product_id = r.product_id;
  service_id = r.service_id;
  item_name = r.item_name;
  quantity = r.quantity;
  price_at_time = r.price_at_time;
}

-- the foreign keys of `OrderItem`
abbrev pub refers : {A : Type 0} → Option ℕ → Table A → Bool
refers none t = true
refers (some k) t = is_some (lookup k t)

-- the id of a row that the order already has
abbrev pub existing_id : Option ℕ → List ℕ → Option ℕ
existing_id none existing = none
existing_id (some k) existing = if includes k existing then some k else none

-- `orderItem.update` or `orderItem.create`, and the id that is kept
abbrev pub write_row : Option ℕ → ℕ → OrderItem → Exec World ℕ
write_row none fresh i = do
  put (λ w. record w { order_items = (fresh, i) ∷ w.order_items })
  pure fresh
write_row (some k) fresh i = do
  put (λ w. record w {
    order_items = modify k (λ old. record i { order_id = old.order_id }) w.order_items;
  })
  pure k

abbrev pub save_row : ℕ → ℕ → List ℕ → ItemRow → Exec World ℕ
save_row fresh order existing r = do
  known ← gets (λ w. refers r.service_id w.services && refers r.product_id w.products)
  throw_if (not known) foreign_key_violation
  write_row (existing_id r.id existing) fresh (item_of order r)

-- the loop over the rows, with the ids that it keeps
unfoldable pub save_rows : (ℕ → ℕ) → ℕ → ℕ → List ℕ → List ItemRow → Exec World (List ℕ)
save_rows uuid n order existing [] = pure []
save_rows uuid n order existing (r ∷ rest) = do
  kept ← save_row (uuid n) order existing r
  others ← save_rows uuid (suc n) order existing rest
  pure (kept ∷ others)

-- the loop that deletes the items that no row keeps
unfoldable pub delete_others : List ℕ → List ℕ → Exec World (Unit {0})
delete_others kept [] = pure tt
delete_others kept (k ∷ rest) = do
  if includes k kept then pure tt else put (λ w. record w { order_items = erase k w.order_items })
  delete_others kept rest

abbrev pub keys : {A : Type 0} → Table A → List ℕ
keys = map (λ (k, _). k)

-- the items, and the total where they were given
unfoldable pub save_items : Env → ℕ → Order → UpdateOrderDto → Exec World (Option ℕ)
save_items env id order dto = elim dto.order_items [
  | none ↦ pure none
  | some rows ↦ do
    existing ← gets (λ w. keys (items_of id w))
    kept ← save_rows env.uuid 0 id existing rows
    delete_others kept existing
    items ← gets (totals_of id)
    pure (some (calculate_order_total items (or_else dto.delivery_needed order.delivery_needed)))
]

-- `updateData`
abbrev pub changed : UpdateOrderDto → Option ℕ → Order → Order
changed dto total o = record o {
  master_id = or_else dto.master_id o.master_id;
  client_name = or_else dto.client_name o.client_name;
  client_phone = or_else dto.client_phone o.client_phone;
  car_number = or_else dto.car_number o.car_number;
  car_model = elim dto.car_model [ none ↦ o.car_model | some model ↦ some model ];
  organization_id = or_else dto.organization_id o.organization_id;
  vehicle_id = or_else dto.vehicle_id o.vehicle_id;
  delivery_needed = or_else dto.delivery_needed o.delivery_needed;
  total_amount = or_else total o.total_amount;
}

-- `connect` to a row that is missing throws
abbrev pub connects : {A : Type 0} → Option (Option ℕ) → Table A → Bool
connects none t = true
connects (some k) t = refers k t

unfoldable pub admin_update_order : Env → Option ℕ → ℕ → UpdateOrderDto → Exec World Order
admin_update_order env user id dto = do
  order ← find_order id
  check_master dto.master_id
  total ← save_items env id order dto
  known ←
      gets (λ w. connects dto.organization_id w.organizations && connects dto.vehicle_id w.vehicles)
  throw_if (not known) record_missing
  updated ← update_order id (changed dto total)
  audit user (order_update total) id
  pure updated
