-- ===== src/Examples/Panel.antt =====
-- The administration's front end, its dashboard, and its session, at small databases.
use ustabobo_bot.Base.{
  ◌*◌, ◌≡◌, refl, Option, none, some, List, [], ◌∷◌, sum_by, arith, true, false, ◌⊎◌,
}
use ustabobo_bot.Base.Table.{lookup}
use ustabobo_bot.Schema.{World, draft}
use ustabobo_bot.WebApp.MyOrders.{MyOrder, MyPage}
use ustabobo_bot.WebApp.MyOrders.Calls.{InSync}
use ustabobo_bot.WebApp.MyOrders.Sync.{cancel, press, press-InSync}
use ustabobo_bot.Text.{codes, same_text, strip_prefix}
use ustabobo_bot.Orders.Draft.{draft_order}
use ustabobo_bot.Bot.Lists.{created_in, midnight, days_ago, count_orders}
use ustabobo_bot.Reports.Dashboard.{WeeklyOrderItem, get_weekly_orders, end_of}
use ustabobo_bot.Reports.Dashboard.Week.{get_weekly_orders-total}
use ustabobo_bot.Organizations.{CreateServiceDto}
use ustabobo_bot.Auth.Guards.{
  admit_request, run_guards, guard, jwt_auth_guard, passport, account_of, roles_guard,
}
use ustabobo_bot.Erp
use ustabobo_bot.Erp.{
  Cookies, Method, post, Backend, proxy, next, to_login, middleware, routed, is_matched,
  ends_as_image, is_one_of, is_under_some,
}
use ustabobo_bot.Erp.Panel.{Operation, enter_service, operate, panel}
use ustabobo_bot.Erp.Panel.Requests.{IsPerformed, proxy-IsPerformed}
use ustabobo_bot.Erp.Panel.Renewed.{proxy-renewed}
use ustabobo_bot.Erp.Sessions.{Event, renew, log_out, call, expire_token, steps, log_out-routed}
use ustabobo_bot.Examples.Accounts.{office, owner, jwt-ReadsBack}
use ustabobo_bot.Examples.Entry.{gate}
use ustabobo_bot.Examples.Shop.{shop, env_at, request}

-- the operations behind two kinds of request
abbrev new_service : CreateServiceDto
new_service = record { name = codes "oil"; price = 900 }

abbrev by_method : Method → Option Operation
by_method post = some (enter_service (env_at 9 5) new_service)
by_method Method.delete = some (Operation.delete 20)
by_method _ = none

abbrev operation_of : Erp.Request → Option Operation
operation_of r = by_method r.method

abbrev office_panel : Backend World
office_panel = panel (λ a b. same_text a b) gate operation_of false

-- the boss, whose access token is none of the library's
abbrev old_cookies : Cookies
old_cookies = record { token = some (codes "old"); refresh = some (1 ∷ 1 ∷ []) }

abbrev create : Erp.Request
create = record { method = post; path = codes "admin/services"; body = some (codes "1") }

abbrev remove : Erp.Request
remove = record { method = Method.delete; path = codes "admin/services/20"; body = none }

proxy-IsPerformed_example :
    ((proxy office_panel remove old_cookies office).1 ≡ office)
    ⊎ IsPerformed
        (λ a b. same_text a b)
        gate
        operation_of
        false
        remove
        office
        (proxy office_panel remove old_cookies office).1
unfolding lookup
proxy-IsPerformed_example =
    proxy-IsPerformed (λ a b. same_text a b) gate operation_of false remove old_cookies office
      (refl, tt)

abbrev renewed_cookies : Cookies
renewed_cookies = record old_cookies { token = some (0 ∷ 1 ∷ 0 ∷ codes "boss") }

proxy-renewed_example : proxy office_panel remove old_cookies office ≡ (
  (some (operate (Operation.delete 20) office).0, renewed_cookies),
  (operate (Operation.delete 20) office).1,
)
unfolding lookup admit_request run_guards guard jwt_auth_guard passport account_of roles_guard
    strip_prefix
proxy-renewed_example =
    proxy-renewed (λ a b. same_text a b) gate operation_of false 1 owner office jwt-ReadsBack refl
      refl refl remove old_cookies (Operation.delete 20) 900 refl refl refl (omega arith) refl refl

abbrev clicks : List Event
clicks = call create ∷ renew ∷ expire_token ∷ []

log_out-routed_example :
    routed (steps office_panel (log_out ∷ clicks) (old_cookies, office)).0 (codes "/orders/12")
    ≡ to_login
unfolding same_text strip_prefix is_under_some is_matched ends_as_image is_one_of
log_out-routed_example =
    log_out-routed office_panel clicks old_cookies office (codes "/orders/12") tt refl refl refl

-- a page behind the session that the pattern of the middleware leaves out
picture : routed (record { token = none; refresh = none }) (codes "/orders/12.png") ≡ next
unfolding routed is_matched strip_prefix ends_as_image is_one_of same_text
picture = refl

-- two pages that the list of the middleware leaves out
masters_page : middleware (record { token = none; refresh = none }) (codes "/masters/7") ≡ next
unfolding middleware same_text strip_prefix is_under_some
masters_page = refl

suppliers_page : middleware (record { token = none; refresh = none }) (codes "/suppliers") ≡ next
unfolding middleware same_text strip_prefix is_under_some
suppliers_page = refl

-- an order of the third day, seen on the eighth
abbrev small_shop : World
small_shop = record shop { orders = (1, draft_order (env_at (3 * 86_400_000) 1) 2 request) ∷ [] }

get_weekly_orders-total_example :
    sum_by (λ (r : WeeklyOrderItem). r.count) (get_weekly_orders (8 * 86_400_000) small_shop)
    ≡ count_orders
        (created_in (midnight (days_ago 6 (8 * 86_400_000))) (end_of (8 * 86_400_000)))
        small_shop
get_weekly_orders-total_example = get_weekly_orders-total (8 * 86_400_000) small_shop (omega arith)

-- the list of the master who took that order, and cancels it
abbrev his_row : MyOrder
his_row = record { id = 1; status = draft }

abbrev his_page : MyPage
his_page = record { orders = his_row ∷ []; to_finish = none }

press-InSync_example : InSync (press (env_at 9 5) true 2 (cancel his_row) (his_page, small_shop))
unfolding lookup
press-InSync_example =
    press-InSync (env_at 9 5) true 2 (cancel his_row) his_page small_shop tt
      ((draft_order (env_at (3 * 86_400_000) 1) 2 request, refl, refl), tt)
