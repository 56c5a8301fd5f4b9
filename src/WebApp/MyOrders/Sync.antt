-- ===== src/WebApp/MyOrders/Sync.antt =====
-- The list on the page and the orders in the database stay the same.
use ustabobo_bot.Base.{
  ℕ, ◌≡◌, refl, ap, ◌∙◌, sym, subst, Bool, true, false, ◌&&◌, ◌==◌, Option, none, some, Bool-cases,
  inl, inr,
}
use ustabobo_bot.Base.Exec.{Result, ok, err}
use ustabobo_bot.Schema.{
  World, Env, Order, cancelled, waiting_customer_confirmation, delivered_by_driver,
}
use ustabobo_bot.Base.Table.{lookup, modify}
use ustabobo_bot.OrderStatusMachine.{can_transition}
use ustabobo_bot.Orders.Work.{cancel_order, finish}
use ustabobo_bot.Orders.Delivery.{driver_delivered_order}
use ustabobo_bot.WebApp.MyOrders.{
  MyOrder, MyPage, find_row, handle_cancel, handle_master_finish_click,
  handle_master_finish_confirm, handle_driver_finish, finish_endpoint, with_link, shown, finish_row,
  finish_asked, can_master_finish, can_driver_finish,
}
use ustabobo_bot.WebApp.MyOrders.Calls.{
  InSync, Does, shown-InSync, finish-allowed, cancel_order-Does, driver_delivered_order-Does,
  finish_update, finish-Does,
}

module _ (env : Env) (named : Bool) (user : ℕ) where
  -- what a user does on the page
  pub data Press : Type 0 where
    cancel deliver : MyOrder → Press
    ask_finish : MyOrder → Press
    confirm_finish : Press

  unfoldable pub press : Press → MyPage × World → MyPage × World
  press (cancel r) x = handle_cancel user r.id x
  press (deliver r) x = handle_driver_finish user r x
  press (ask_finish r) (p, w) = (handle_master_finish_click r p, w)
  press confirm_finish x = handle_master_finish_confirm env named user x

  -- the press needs no link, or the bot's name, of which the link is made, is configured
  abbrev pub IsLinked : Press → Type 0
  IsLinked confirm_finish = named ≡ true
  IsLinked _ = Unit

  endpoint-Does :
      (id : ℕ) (w : World)
      → named ≡ true
      → Does w.orders id (finish_update env) (finish_endpoint env named id user w)
  endpoint-Does id w linked =
      subst (λ b. Does w.orders id (finish_update env) (finish_endpoint env b id user w))
        (sym linked) (finish-Does env true id user w)

  finish_row-InSync :
      (id : ℕ) (o : Option MyOrder) (p : MyPage) (w : World)
      → named ≡ true
      → InSync (p, w)
      → InSync (finish_row env named user id o (p, w))
  finish_row-InSync id none p w linked h = h
  finish_row-InSync id (some o) p w linked h = elim (Bool-cases (can_master_finish o.status)) [
    | inr other ↦ rw other h
    | inl at_work ↦ rw at_work (
        shown-InSync id waiting_customer_confirmation (finish_update env) p w
          (finish_endpoint env named id user w) (endpoint-Does id w linked) (λ q. refl) h)
  ]

  finish_asked-InSync :
      (o : Option ℕ) (p : MyPage) (w : World)
      → named ≡ true
      → InSync (p, w)
      → InSync (finish_asked env named user o (p, w))
  finish_asked-InSync none p w linked h = h
  finish_asked-InSync (some id) p w linked h =
      finish_row-InSync id (find_row id p.orders) p w linked h

  click-InSync :
      (r : MyOrder) (p : MyPage) (w : World)
      → InSync (p, w)
      → InSync (handle_master_finish_click r p, w)
  unfolding handle_master_finish_click
  click-InSync r p w h = elim (Bool-cases (can_master_finish r.status)) [
    | inl at_work ↦ rw at_work h
    | inr other ↦ rw other h
  ]

  -- Whatever the user presses, and whether the server accepts it or not, every row of the page has the
  -- status that its order has in the database, if it was so before: the page changes a row exactly
  -- when the server changed the order, and to the same status. The confirmation that the work is
  -- finished does so where the bot's name is configured; every answer of the server arrives.
  pub press-InSync :
      (e : Press) (p : MyPage) (w : World) → IsLinked e → InSync (p, w) → InSync (press e (p, w))
  unfolding press handle_cancel handle_driver_finish handle_master_finish_confirm
  press-InSync (cancel r) p w linked h =
      shown-InSync r.id cancelled (λ o. record o { status = cancelled }) p w
        (cancel_order r.id user w) (cancel_order-Does r.id user w) (λ q. refl) h
  press-InSync (deliver r) p w linked h = elim (Bool-cases (can_driver_finish r.status)) [
    | inr other ↦ rw other h
    | inl ready ↦ rw ready (
        shown-InSync r.id delivered_by_driver (λ o. record o { status = delivered_by_driver }) p w
          (driver_delivered_order r.id user w) (driver_delivered_order-Does r.id user w) (λ q. refl)
          h)
  ]
  press-InSync (ask_finish r) p w linked h = click-InSync r p w h
  press-InSync confirm_finish p w linked h =
      finish_asked-InSync p.to_finish (record p { to_finish = none }) w linked h

unlinked :
    (id : ℕ) (p : MyPage) (x : Result ℕ × World)
    → shown id waiting_customer_confirmation p (with_link false x) ≡ (p, x.1)
unlinked id p (ok a, w) = refl
unlinked id p (err e, w) = refl

-- Where the name is not configured, a finish that the order's master may make moves the order, and the
-- page goes on showing it as it was.
pub finish_endpoint-behind :
    (env : Env) (id user : ℕ) (p : MyPage) (w : World) (o : Order)
    → lookup id w.orders ≡ some o
    → (o.master_id == user && can_transition o.status waiting_customer_confirmation) ≡ true
    → ((shown id waiting_customer_confirmation p (finish_endpoint env false id user w)).0 ≡ p)
      × ((shown id waiting_customer_confirmation p (finish_endpoint env false id user w)).1.orders
          ≡ modify id (finish_update env) w.orders)
finish_endpoint-behind env id user p w o found allowed =
    let x = unlinked id p (finish env false id user w) in
    (ap (λ y. y.0) x, ap (λ y. y.1.orders) x ∙ finish-allowed env false id user w o found allowed)
