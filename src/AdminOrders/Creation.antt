-- ===== src/AdminOrders/Creation.antt =====
-- src/admin/admin.service.ts: createOrder. It shares the checks and the items of createDraft, for a
-- master that the administrator names, and stores the total at once.
pub mod Total
use ustabobo_bot.Base.{
  ℕ, suc, ◌+◌, ◌-◌, ◌*◌, ◌/◌, ◌≤◌, ◌<◌, min, max, ◌≡◌, refl, ◌≢◌, ◌⊎◌, inl, inr, Bool, true, false,
  not, ◌&&◌, ◌||◌, Option, none, some, List, [], ◌∷◌, ◌++◌, map, ltb, leb, ◌==◌, if◌then◌else◌,
  or_else, is_some, holds, length, includes, sum_by, All, arith, Bool-cases, Option-cases,
}
use ustabobo_bot.Base.Int.{ℤ, pos, negsuc, ◌+ℤ◌, ◌-ℤ◌}
use ustabobo_bot.Base.Table.{Table, lookup, modify, erase, find_first, find_many}
use ustabobo_bot.Base.Exec.{
  Exec, Result, ok, err, Error, Reason, bad_request, not_found, forbidden, conflict,
  unique_violation, record_missing, order_missing, not_yours, illegal_transition, empty_order,
  foreign_vehicle, half_organization, services_missing, products_missing, not_draft, empty_name,
  bad_price, not_awaiting_delivery, bad_token, already_taken, not_deliverable, product_missing,
  out_of_stock, user_missing, pure, throw, gets, put, or_throw, transaction, throw_if, ◌>>=◌, ◌>>◌,
}
use ustabobo_bot.Schema.{
  World, Env, Text, Order, OrderItem, OrderEvent, EventPayload, User, Organization, Product,
  Vehicle, Service, Transaction, OrderStatus, draft, waiting_confirmation,
  waiting_master_work_start, broadcasted, accepted, received_by_driver,
  waiting_master_delivery_confirmation, delivered_by_driver, received_by_master, working,
  waiting_customer_confirmation, completed, cancelled, Settlement, draft_created,
  location_submitted, master_confirmed, master_started_work, driver_finished, driver_delivered,
  by_master_received, order_cancelled, master_finished, master_confirmed_delivery,
  master_rejected_delivery, driver_accepted, customer_completed, OrderItemType, product, service,
  manual_product, TransactionType, master_fee, driver_fee, delivery_fee, Role, boss, master, driver,
  Notice, ask_location, ask_confirm, work_start_request, work_started, can_start_work,
  delivery_request, finish_link, delivery_rejected, stock_alert,
}
use ustabobo_bot.Prisma.{
  update_order, update_user, update_organization, update_product, create_transaction, create_event,
  notify, notify_user, items_of, tg_of, find_entry, same_entry, same_type, updated, created,
}
use ustabobo_bot.OrderStatusMachine.{can_transition, same_status}
use ustabobo_bot.PriceCalculator.{
  calculate_order_total, for_total, delivery_price, som, OrderItemForTotal,
}
use ustabobo_bot.Orders.{read_order}
use ustabobo_bot.Orders.Draft.{
  CreateOrderDto, is_empty_order, check_organization, check_items, product_ids, item_data,
  draft_order, number_rows,
}
use ustabobo_bot.AdminOrders.{is_master_role}

-- `user.findFirst({ where: { id, role: master, is_active: true } })`
abbrev pub is_active_master : Option User → Bool
is_active_master none = false
is_active_master (some u) = is_master_role u.role && u.is_active

-- the row of `order.create`: the dto has no photo, and the total is known
abbrev pub created_order : Env → ℕ → CreateOrderDto → ℕ → Order
created_order env master_id dto total = record (draft_order env master_id dto) {
  car_photo_url = none;
  total_amount = total;
}

unfoldable pub admin_create_order : Env → ℕ → CreateOrderDto → Exec World (Option Order)
admin_create_order env master_id dto = do
  throw_if (is_empty_order dto) (bad_request empty_order)
  found ← gets (λ w. is_active_master (lookup master_id w.users))
  throw_if (not found) (bad_request user_missing)
  check_organization dto.organization_id dto.vehicle_id
  check_items dto.service_ids (product_ids dto.products)
  let id = env.uuid 0
  items ← gets (λ w. item_data w id dto)
  let total = calculate_order_total (map for_total items) dto.delivery_needed
  put (λ w. record w {
    orders = (id, created_order env master_id dto total) ∷ w.orders;
    order_items = number_rows env.uuid 1 items ++ w.order_items;
  })
  read_order id
