-- ===== src/Orders/Requests/Money.antt =====
-- The ledger over every sequence of calls.
use ustabobo_bot.Base.{refl, List, [], ◌∷◌}
use ustabobo_bot.Schema.{World, Env}
use ustabobo_bot.Orders.Requests.{Request, serve, serve_all}
use ustabobo_bot.Orders.Ledger.{Posting, SameMoney-Posting, Posting-trans}
use ustabobo_bot.Orders.Ledger.Calls as Calls
use ustabobo_bot.Orders.Ledger.Delivery.{master_confirm_delivery-Posting}
use ustabobo_bot.Orders.Ledger.Completion.{customer_confirm-Posting}

serve-Posting : (env : Env) (r : Request) (w : World) → Posting w (serve env r w)
unfolding serve
serve-Posting env (Request.create_draft m dto) w =
    SameMoney-Posting w _ (Calls.create_draft-SameMoney env m dto w)
serve-Posting env (Request.set_location id m lat lng) w =
    SameMoney-Posting w _ (Calls.set_location-SameMoney id m lat lng w)
serve-Posting env (Request.add_location_to_draft tg lat lng) w =
    SameMoney-Posting w _ (Calls.add_location_to_draft-SameMoney tg lat lng w)
serve-Posting env (Request.add_manual_product id m name price quantity) w =
    SameMoney-Posting w _ (Calls.add_manual_product-SameMoney env id m name price quantity w)
serve-Posting env (Request.confirm id m) w = SameMoney-Posting w _ (Calls.confirm-SameMoney id m w)
serve-Posting env (Request.master_start_work id m) w =
    SameMoney-Posting w _ (Calls.master_start_work-SameMoney id m w)
serve-Posting env (Request.cancel_order id m) w =
    SameMoney-Posting w _ (Calls.cancel_order-SameMoney id m w)
serve-Posting env (Request.receive id m) w = SameMoney-Posting w _ (Calls.receive-SameMoney id m w)
serve-Posting env (Request.finish named id m) w =
    SameMoney-Posting w _ (Calls.finish-SameMoney env named id m w)
serve-Posting env (Request.driver_accept id d) w =
    SameMoney-Posting w _ (Calls.driver_accept-SameMoney id d w)
serve-Posting env (Request.driver_finish id d) w =
    SameMoney-Posting w _ (Calls.driver_finish-SameMoney id d w)
serve-Posting env (Request.driver_delivered_order id d) w =
    SameMoney-Posting w _ (Calls.driver_delivered_order-SameMoney id d w)
serve-Posting env (Request.master_confirm_delivery id m confirmed) w =
    master_confirm_delivery-Posting env id m confirmed w
serve-Posting env (Request.customer_confirm token) w = customer_confirm-Posting env token w

-- Over every sequence of calls rows are only added to the transactions; if before every user's
-- balance was the sum of his rows then it is so after, and if no two rows had the same order, user
-- and type then none have after.
pub serve_all-Posting : (calls : List (Env × Request)) (w : World) → Posting w (serve_all calls w)
unfolding serve_all
serve_all-Posting [] w = SameMoney-Posting w w (refl, refl)
serve_all-Posting ((env, r) ∷ rest) w =
    Posting-trans w (serve env r w) _ (serve-Posting env r w)
      (serve_all-Posting rest (serve env r w))
