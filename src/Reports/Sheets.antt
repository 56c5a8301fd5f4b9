-- ===== src/Reports/Sheets.antt =====
-- src/admin/admin.service.ts: getOrganizationReport and getOrdersReport, the rows of the spreadsheets.
-- A name that is written as a dash is `none`.
pub mod Rows
use ustabobo_bot.Base.{
  ℕ, ◌+◌, Bool, true, false, not, ◌&&◌, Option, none, some, List, [], ◌∷◌, ◌++◌, map, leb, ◌==◌,
  if◌then◌else◌, holds, or_else,
}
use ustabobo_bot.Base.Table.{Table, lookup, find_many}
use ustabobo_bot.Base.Exec.{
  Exec, bad_request, not_found, bad_period, organization_missing, pure, gets, or_throw, ◌>>=◌, ◌>>◌,
}
use ustabobo_bot.Schema.{
  World, Text, Order, OrderItem, OrderItemType, OrderStatus, Organization, Vehicle, User, product,
  service, manual_product,
}
use ustabobo_bot.Text.{codes}
use ustabobo_bot.Prisma.{items_of}
use ustabobo_bot.Reports.{end_of_day}
use ustabobo_bot.Reports.Overall.{sort_asc}
use ustabobo_bot.Reports.Dashboard.{product_of}
use ustabobo_bot.Reports.Dashboard.Summary.{service_of}
use ustabobo_bot.Bot.Lists.{created_in, rows}

-- `orderBy: { created_at: 'asc' }`
abbrev pub oldest_first : Table Order → Table Order
oldest_first = sort_asc (λ r. r.1.created_at)

-- `service?.name ?? product?.name ?? item_name`
abbrev pub item_name : OrderItem → World → Option Text
item_name i w = elim (service_of i.service_id w) [
  | some s ↦ some s.name
  | none ↦ elim (product_of i.product_id w) [ some p ↦ some p.name | none ↦ i.item_name ]
]

pub record ItemLine : Type 0 where
  pub name : Option Text
  pub type : Text
  pub quantity : ℕ
  pub price : ℕ

-- the names of the kinds: two in the report of an organization, three in that of all orders
abbrev pub kind : OrderItemType → Text
kind service = codes "Xizmat"
kind _ = codes "Zapchast"

abbrev pub kind_by_hand : OrderItemType → Text
kind_by_hand service = codes "Xizmat"
kind_by_hand product = codes "Zapchast"
kind_by_hand manual_product = codes "Qo‘lda"

abbrev pub item_line : (OrderItemType → Text) → World → OrderItem → ItemLine
item_line name_of w i = record {
  name = item_name i w;
  type = name_of i.item_type;
  quantity = i.quantity;
  price = i.price_at_time;
}

abbrev pub vehicle_of : Option ℕ → World → Option Vehicle
vehicle_of none w = none
vehicle_of (some id) w = lookup id w.vehicles

abbrev pub organization_of : Option ℕ → World → Option Organization
organization_of none w = none
organization_of (some id) w = lookup id w.organizations

-- getOrganizationReport
pub record OrganizationRow : Type 0 where
  pub id : ℕ
  pub created_at : ℕ
  pub client_name : Text
  pub client_phone : Text
  pub car_number : Text
  pub car_model : Option Text
  pub master_fullname : Option Text
  pub total_amount : ℕ
  pub items : List ItemLine

abbrev pub plate_and_model : Vehicle → Text
plate_and_model v = v.plate_number ++ codes " " ++ v.model

abbrev pub row_model : Order → World → Option Text
row_model o w = elim o.car_model [
  | some m ↦ some m
  | none ↦ elim (vehicle_of o.vehicle_id w) [ none ↦ none | some v ↦ some (plate_and_model v) ]
]

abbrev pub name_of_user : Option User → Option Text
name_of_user none = none
name_of_user (some u) = some u.fullname

abbrev pub organization_row : World → ℕ × Order → OrganizationRow
organization_row w (id, o) = record {
  id = id;
  created_at = o.created_at;
  client_name = o.client_name;
  client_phone = o.client_phone;
  car_number = o.car_number;
  car_model = row_model o w;
  master_fullname = name_of_user (lookup o.master_id w.users);
  total_amount = o.total_amount;
  items = map (item_line kind w) (rows (items_of id w));
}

abbrev pub of_organization : ℕ → ℕ → ℕ → Order → Bool
of_organization org from to o = holds org o.organization_id && created_in from to o

unfoldable pub get_organization_report : ℕ → Option ℕ → Option ℕ → Exec World (List OrganizationRow)
unfolding sort_asc
get_organization_report org from_date to_date = do
  found ← gets (λ w. lookup org w.organizations)
  or_throw found (not_found organization_missing)
  from ← or_throw from_date (bad_request bad_period)
  to ← or_throw to_date (bad_request bad_period)
  gets (λ w.
      map (organization_row w)
        (oldest_first (find_many (of_organization org from (end_of_day to)) w.orders)))

-- getOrdersReport
pub record OrderRow : Type 0 where
  pub created_at : ℕ
  pub completed_at : Option ℕ
  pub master_fullname : Option Text
  pub vehicle_plate : Text
  pub vehicle_model : Option Text
  pub owner_name : Text
  pub client_phone : Text
  pub total_amount : ℕ
  pub status : OrderStatus
  pub items : List ItemLine

abbrev pub owner_of : Order → Option Organization → Text
owner_of o none = o.client_name
owner_of o (some org) = org.name

abbrev pub plate_of : Order → Option Vehicle → Text
plate_of o none = o.car_number
plate_of o (some v) = v.plate_number

abbrev pub model_of : Order → Option Vehicle → Option Text
model_of o none = o.car_model
model_of o (some v) = some v.model

abbrev pub order_row : World → ℕ × Order → OrderRow
order_row w (id, o) = record {
  created_at = o.created_at;
  completed_at = o.completed_at;
  master_fullname = name_of_user (lookup o.master_id w.users);
  vehicle_plate = plate_of o (vehicle_of o.vehicle_id w);
  vehicle_model = model_of o (vehicle_of o.vehicle_id w);
  owner_name = owner_of o (organization_of o.organization_id w);
  client_phone = o.client_phone;
  total_amount = o.total_amount;
  status = o.status;
  items = map (item_line kind_by_hand w) (rows (items_of id w));
}

unfoldable pub get_orders_report : Option ℕ → Option ℕ → Exec World (List OrderRow)
unfolding sort_asc
get_orders_report from_date to_date = do
  from ← or_throw from_date (bad_request bad_period)
  to ← or_throw to_date (bad_request bad_period)
  gets
      (λ w. map (order_row w) (oldest_first (find_many (created_in from (end_of_day to)) w.orders)))
