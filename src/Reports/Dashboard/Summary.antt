-- ===== src/Reports/Dashboard/Summary.antt =====
-- src/admin/admin.service.ts: getDashboard, beside what the bot tells the boss of the same day.
use ustabobo_bot.Base.{
  ℕ, ◌+◌, ◌-◌, ◌≡◌, refl, Bool, false, not, ◌&&◌, Option, none, some, List, [], ◌∷◌, map, length,
  leb, ltb, arith,
}
use ustabobo_bot.Base.Table.{Table, lookup, find_many}
use ustabobo_bot.Base.Pages.{take}
use ustabobo_bot.Schema.{World, Text, Order, OrderItem, OrderStatus, Service, Product, completed}
use ustabobo_bot.Prisma.{items_of}
use ustabobo_bot.Orders.Queries.{is_closed, newest_first}
use ustabobo_bot.Bot.Lists.{
  day, midnight, created_in, has_status, count_orders, revenue_of, today_report,
}

-- `{ gte: today, lt: tomorrow }`
abbrev pub is_today : ℕ → ℕ → Bool
is_today now t = leb (midnight now) t && ltb t (midnight now + day)

abbrev pub completed_today : ℕ → Order → Bool
completed_today now o =
    has_status completed o && elim o.completed_at [ none ↦ false | some t ↦ is_today now t ]

abbrev pub service_of : Option ℕ → World → Option Service
service_of none w = none
service_of (some id) w = lookup id w.services

-- the name of the first item that is a service
unfoldable pub first_service : World → Table OrderItem → Option Text
first_service w [] = none
first_service w ((_, i) ∷ rest) =
    let later = first_service w rest in
    elim (service_of i.service_id w) [ none ↦ later | some s ↦ some s.name ]

abbrev pub first_item_name : Table OrderItem → Option Text
first_item_name [] = none
first_item_name ((_, i) ∷ rest) = i.item_name

-- `none` is written as a dash
abbrev pub shown_service : World → Table OrderItem → Option Text
shown_service w t = elim (first_service w t) [ some s ↦ some s | none ↦ first_item_name t ]

pub record RecentOrder : Type 0 where
  pub id : ℕ
  pub client_name : Text
  pub service_name : Option Text
  pub total_amount : ℕ
  pub status : OrderStatus
  pub created_at : ℕ

abbrev pub recent_order : World → ℕ × Order → RecentOrder
recent_order w (id, o) = record {
  id = id;
  client_name = o.client_name;
  service_name = shown_service w (items_of id w);
  total_amount = o.total_amount;
  status = o.status;
  created_at = o.created_at;
}

pub record Dashboard : Type 0 where
  pub today_orders : ℕ
  pub today_revenue : ℕ
  pub active_orders : ℕ
  pub low_stock_count : ℕ
  pub recent_orders : List RecentOrder

abbrev pub is_low_row : Product → Bool
is_low_row p = p.is_active && leb p.stock_count p.min_limit

unfoldable pub get_dashboard : ℕ → World → Dashboard
unfolding first_service take newest_first
get_dashboard now w = record {
  today_orders = count_orders (λ o. is_today now o.created_at) w;
  today_revenue = revenue_of (completed_today now) w;
  active_orders = count_orders (λ o. not (is_closed o.status)) w;
  low_stock_count = length (find_many is_low_row w.products);
  recent_orders = map (recent_order w) (take 5 (newest_first w.orders));
}

same_count :
    (now : ℕ) (t : Table Order)
    → length (find_many (λ (o : Order). is_today now o.created_at) t)
      ≡ length (find_many (created_in (midnight now) (midnight now + (day - 1))) t)
unfolding find_many
same_count now [] = refl
same_count now ((k, o) ∷ t) = ground (arith, same_count now t)

-- The dashboard of the administration and the report in the chat give the same numbers of the orders
-- of the day and of the open ones.
pub get_dashboard-today_report :
    (now : ℕ) (w : World)
    → ((get_dashboard now w).today_orders ≡ (today_report now w).orders)
      × ((get_dashboard now w).active_orders ≡ (today_report now w).active)
unfolding get_dashboard today_report
get_dashboard-today_report now w = (same_count now w.orders, refl)
