-- ===== src/Reports/Clients.antt =====
-- src/admin/admin.service.ts: getIndividualClients, the clients without an organization, by their
-- telephone numbers. The search is the database's: `contains` under the mode `insensitive` is a
-- parameter.
pub mod Laws
use ustabobo_bot.Base.{
  ℕ, zero, suc, ◌+◌, Bool, true, false, not, ◌&&◌, ◌||◌, Option, none, some, List, [], ◌∷◌, ltb,
  leb, ◌==◌, if◌then◌else◌, is_some, or_else, length,
}
use ustabobo_bot.Base.Table.{Table, find_many}
use ustabobo_bot.Base.Pages.{page, drop}
use ustabobo_bot.Schema.{World, Text, Order, OrderStatus, completed}
use ustabobo_bot.OrderStatusMachine.{same_status}
use ustabobo_bot.Text.{trim, same_text, strip_prefix}
use ustabobo_bot.Orders.Queries.{newest_first}
use ustabobo_bot.Reports.{end_of_day}
use ustabobo_bot.Reports.Groups.{group_into, values}
use ustabobo_bot.Reports.Overall.{sort_desc}

pub record ClientFilters : Type 0 where
  pub from : Option ℕ
  pub to : Option ℕ
  pub status : Option OrderStatus
  pub search : Text

pub record ClientRow : Type 0 where
  pub client_phone : Text
  pub client_name : Text
  pub total_orders : ℕ
  pub total_spent : ℕ
  pub last_activity : ℕ

pub record ClientPage : Type 0 where
  pub items : List ClientRow
  pub total : ℕ
  pub page : ℕ
  pub limit : ℕ

-- a bound that is left out lets every date pass
abbrev pub not_before : Option ℕ → ℕ → Bool
not_before none t = true
not_before (some from) t = leb from t

abbrev pub not_after : Option ℕ → ℕ → Bool
not_after none t = true
not_after (some to) t = leb t (end_of_day to)

abbrev pub has_status : Option OrderStatus → OrderStatus → Bool
has_status none s = true
has_status (some wanted) s = same_status s wanted

-- `{ contains: q }`
unfoldable pub contains : Text → Text → Bool
unfolding strip_prefix
contains q [] = is_some (strip_prefix q [])
contains q (c ∷ s) = is_some (strip_prefix q (c ∷ s)) || contains q s

-- `o.completed_at ?? o.created_at`
abbrev pub activity : Order → ℕ
activity o = or_else o.completed_at o.created_at

abbrev pub phone_key : ℕ × Order → Option Text
phone_key p = some p.1.client_phone

abbrev pub fresh_client : ℕ × Order → ClientRow
fresh_client p = record {
  client_phone = p.1.client_phone;
  client_name = p.1.client_name;
  total_orders = 0;
  total_spent = 0;
  last_activity = activity p.1;
}

-- what a completed order was paid
abbrev pub spent : ℕ × Order → ℕ
spent p = if same_status p.1.status completed then p.1.total_amount else 0

abbrev pub add_to_client : ℕ × Order → ClientRow → ClientRow
add_to_client p r = record r {
  total_orders = suc r.total_orders;
  total_spent = r.total_spent + spent p;
  last_activity = if ltb r.last_activity (activity p.1) then activity p.1 else r.last_activity;
}

unfoldable pub client_map : Table Order → List (Text × ClientRow)
unfolding same_text
client_map orders = group_into same_text phone_key fresh_client add_to_client orders []

unfoldable pub clients_of : Table Order → List ClientRow
unfolding client_map sort_desc
clients_of orders = sort_desc (λ r. r.last_activity) (values (client_map orders))

-- `slice((page - 1) * limit, (page - 1) * limit + limit)`, which is empty for the page 0
abbrev pub sliced : ℕ → ℕ → List ClientRow → List ClientRow
sliced zero limit clients = []
sliced (suc p) limit clients = page (suc p) limit clients

module _ (matches : Text → Text → Bool) where
  abbrev pub is_searched : Text → Order → Bool
  is_searched q o = length q == 0 || matches q o.client_name || contains q o.client_phone

  unfoldable pub is_individual : ClientFilters → Order → Bool
  unfolding trim contains
  is_individual f o =
      not (is_some o.organization_id)
      && not_before f.from o.created_at
      && not_after f.to o.created_at
      && has_status f.status o.status
      && is_searched (trim f.search) o

  abbrev pub individual_orders : ClientFilters → World → Table Order
  individual_orders f w = find_many (is_individual f) w.orders

  abbrev pub clients : ClientFilters → World → List ClientRow
  clients f w = clients_of (newest_first (individual_orders f w))

  unfoldable pub get_individual_clients : ClientFilters → ℕ → ℕ → World → ClientPage
  unfolding is_individual clients_of newest_first
  get_individual_clients f p limit w = record {
    items = sliced p limit (clients f w);
    total = length (clients f w);
    page = p;
    limit = limit;
  }
