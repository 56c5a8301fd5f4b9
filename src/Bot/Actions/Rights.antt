-- ===== src/Bot/Actions/Rights.antt =====
-- What a button can change: nothing without a session, and no order of other people.
use ustabobo_bot.Base.{
  ℕ, ◌≡◌, ◌≢◌, inl, inr, Bool, true, false, Option, none, some, if◌then◌else◌, arith, Option-cases,
}
use ustabobo_bot.Base.Table.{lookup, modify, lookup-modify}
use ustabobo_bot.Base.Exec.{Result-cases}
use ustabobo_bot.Schema.{
  World, Env, Text, Order, User, working, cancelled, broadcasted, received_by_driver, driver,
  delivered_by_driver,
}
use ustabobo_bot.OrderStatusMachine.{same_status}
use ustabobo_bot.Orders.{totals_of}
use ustabobo_bot.Orders.Work.{
  confirm, master_start_work, cancel_order, confirm_status, confirm_total,
}
use ustabobo_bot.Orders.Delivery.{driver_accept, master_confirm_delivery, record_delivery}
use ustabobo_bot.Orders.Lifecycle.Delivery.{record_delivery-orders}
use ustabobo_bot.Bot.Callbacks.{Callback, parse_callback, data_of}
use ustabobo_bot.Bot.Callbacks.Laws.{IsIdText, parse_callback-data_of}
use ustabobo_bot.Bot.Session.{Dialogue, require_auth, session_of}
use ustabobo_bot.Bot.Session.Access.{require_auth-signed, require_auth-out}
use ustabobo_bot.Bot.Actions.{Press, press, on_callback, on_id, if_his}

-- an order in which a user has no part, and that waits for no driver
pub record IsForeign (user : ℕ) (o : Order) : Type 0 where
  pub other_master : o.master_id ≢ user
  pub other_driver : o.driver_id ≢ some user
  pub not_offered : same_status o.status broadcasted ≡ false

module _ (j k user : ℕ) (o : Order) (w : World) (there : lookup j w.orders ≡ some o)
    (foreign : IsForeign user o) where
  confirm-foreign : lookup j (confirm k user w).1.orders ≡ some o
  unfolding confirm
  confirm-foreign = elim (Option-cases (lookup k w.orders)) [
    | inl absent ↦ ground arith
    | inr (p, found) ↦ ground (
      arith,
      foreign.other_master,
      lookup-modify k j
          (λ o'. record o' {
            status = confirm_status p;
            total_amount = confirm_total p (totals_of k w);
          })
          w.orders,
    )
  ]

  cancel_order-foreign : lookup j (cancel_order k user w).1.orders ≡ some o
  unfolding cancel_order
  cancel_order-foreign = ground (
    arith,
    foreign.other_master,
    lookup-modify k j (λ o'. record o' { status = cancelled }) w.orders,
  )

  master_start_work-foreign : lookup j (master_start_work k user w).1.orders ≡ some o
  unfolding master_start_work
  master_start_work-foreign = ground (
    arith,
    foreign.other_master,
    lookup-modify k j (λ o'. record o' { status = working }) w.orders,
  )

  driver_accept-foreign : lookup j (driver_accept k user w).1.orders ≡ some o
  unfolding driver_accept
  driver_accept-foreign = ground (
    arith,
    foreign.not_offered,
    lookup-modify k j (λ o'. record o' { driver_id = some user; status = received_by_driver })
        w.orders,
  )

  delivered-foreign : lookup j (modify k (if_his user) w.orders) ≡ some o
  delivered-foreign = ground (arith, foreign.other_driver, lookup-modify k j (if_his user) w.orders)

  master_confirm_delivery-foreign :
      (env : Env) (yes_or_no : Bool)
      → lookup j (master_confirm_delivery env k user yes_or_no w).1.orders ≡ some o
  unfolding master_confirm_delivery
  master_confirm_delivery-foreign env yes_or_no = elim (Option-cases (lookup k w.orders)) [
    | inl absent ↦ ground arith
    | inr (p, found) ↦ elim (Result-cases (record_delivery env k user p yes_or_no w).0) [
      | inl (_, done) ↦ ground (
        arith,
        foreign.other_master,
        record_delivery-orders env k user p yes_or_no w done,
        lookup-modify k j
            (λ o'. record o' { status = if yes_or_no then working else received_by_driver })
            w.orders,
      )
      | inr (_, failed) ↦ ground arith
    ]
  ]

module _ (id_of : Text → Option ℕ) (p : Press) where
  callback-signed_out :
      (c : Callback) (d : Dialogue)
      → session_of p.env.now p.from d.world ≡ none
      → ((on_callback id_of p c d).world ≡ d.world)
        × ((on_callback id_of p c d).pending ≡ d.pending)
  unfolding on_callback
  callback-signed_out c d out = ground (arith, require_auth-out p.env.now p.from d out)

  named-foreign :
      (id : Text) (j : ℕ) (o : Order) (d : Dialogue)
      → lookup j d.world.orders ≡ some o
      → (f : ℕ → Dialogue → Dialogue) → ((k : ℕ) → lookup j (f k d).world.orders ≡ some o)
      → lookup j (on_id id_of f (id_of id) d).world.orders ≡ some o
  named-foreign id j o d there f kept = elim (Option-cases (id_of id)) [
    | inl bad ↦ rw bad there
    | inr (k, named) ↦ rw named (kept k)
  ]

  callback-foreign :
      (c : Callback) (d : Dialogue) (user j : ℕ) (u : User) (o : Order)
      → session_of p.env.now p.from d.world ≡ some (user, u)
      → lookup j d.world.orders ≡ some o
      → IsForeign user o
      → lookup j (on_callback id_of p c d).world.orders ≡ some o
  unfolding on_callback
  callback-foreign (Callback.driver_delivered id) d user j u o signed there foreign =
      elim (Option-cases (id_of id)) [
        | inl bad ↦ ground (arith, require_auth-signed p.env.now p.from d signed)
        | inr (k, named) ↦ ground (
          arith,
          require_auth-signed p.env.now p.from d signed,
          delivered-foreign j k user o d.world there foreign,
        )
      ]
  callback-foreign (Callback.confirm_order id) d user j u o signed there foreign =
      rw (require_auth-signed p.env.now p.from d signed)
        (named-foreign id j o d there _ (λ k. confirm-foreign j k user o d.world there foreign))
  callback-foreign (Callback.cancel_order id) d user j u o signed there foreign =
      rw (require_auth-signed p.env.now p.from d signed) (
        named-foreign id j o d there _ (λ k. cancel_order-foreign j k user o d.world there foreign))
  callback-foreign (Callback.accept_order id) d user j u o signed there foreign =
      rw (require_auth-signed p.env.now p.from d signed) (
        named-foreign id j o d there _
          (λ k. driver_accept-foreign j k user o d.world there foreign))
  callback-foreign (Callback.confirm_delivery id) d user j u o signed there foreign =
      rw (require_auth-signed p.env.now p.from d signed) (
        named-foreign id j o d there _
          (λ k. master_confirm_delivery-foreign j k user o d.world there foreign p.env true))
  callback-foreign (Callback.reject_delivery id) d user j u o signed there foreign =
      rw (require_auth-signed p.env.now p.from d signed) (
        named-foreign id j o d there _
          (λ k. master_confirm_delivery-foreign j k user o d.world there foreign p.env false))
  callback-foreign (Callback.start_work id) d user j u o signed there foreign =
      rw (require_auth-signed p.env.now p.from d signed) (
        named-foreign id j o d there _
          (λ k. master_start_work-foreign j k user o d.world there foreign))
  callback-foreign (Callback.add_manual_service id) d user j u o signed there foreign =
      ground (arith, require_auth-signed p.env.now p.from d signed)
  callback-foreign (Callback.master_tarix n) d user j u o signed there foreign =
      ground (arith, require_auth-signed p.env.now p.from d signed)
  callback-foreign (Callback.driver_tarix n) d user j u o signed there foreign =
      ground (arith, require_auth-signed p.env.now p.from d signed)
  callback-foreign Callback.master_faol_refresh d user j u o signed there foreign =
      ground (arith, require_auth-signed p.env.now p.from d signed)
  callback-foreign (Callback.decline_work id) d user j u o signed there foreign = there

  -- A button pressed without a running session changes neither the database nor the manual services
  -- that are waited for, whatever data it carries.
  pub press-signed_out :
      (s : Text) (d : Dialogue)
      → session_of p.env.now p.from d.world ≡ none
      → ((press id_of p s d).world ≡ d.world) × ((press id_of p s d).pending ≡ d.pending)
  unfolding press require_auth on_callback
  press-signed_out s d out = elim (Option-cases (parse_callback s)) [
    | inl unknown ↦ ground arith
    | inr (c, known) ↦ rw known (callback-signed_out c d out)
  ]

  -- A button pressed by a user with a running session leaves every order as it is stored in which he
  -- is neither the master nor the driver and that is not offered to the drivers.
  pub press-foreign :
      (s : Text) (d : Dialogue) (user j : ℕ) {u : User} {o : Order}
      → session_of p.env.now p.from d.world ≡ some (user, u)
      → lookup j d.world.orders ≡ some o
      → IsForeign user o
      → lookup j (press id_of p s d).world.orders ≡ some o
  unfolding press
  press-foreign s d user j {u} {o} signed there foreign = elim (Option-cases (parse_callback s)) [
    | inl unknown ↦ ground arith
    | inr (c, known) ↦ rw known (callback-foreign c d user j u o signed there foreign)
  ]

  -- The button under a driver's delivery sets his order to `delivered_by_driver` whatever its status
  -- is, even a final one, and writes no event: the table of transitions is not asked.
  pub press-delivered_any_status :
      (id : Text) (d : Dialogue) (user k : ℕ) {u : User} {o : Order}
      → IsIdText id
      → session_of p.env.now p.from d.world ≡ some (user, u)
      → u.role ≡ driver
      → id_of id ≡ some k
      → lookup k d.world.orders ≡ some o
      → o.driver_id ≡ some user
      → (lookup k (press id_of p (data_of (Callback.driver_delivered id)) d).world.orders
          ≡ some (record o { status = delivered_by_driver }))
        × ((press id_of p (data_of (Callback.driver_delivered id)) d).world.order_events
            ≡ d.world.order_events)
  unfolding press on_callback
  press-delivered_any_status id d user k {u} {o} read signed role named there his = ground (
    arith,
    parse_callback-data_of (Callback.driver_delivered id) read,
    require_auth-signed p.env.now p.from d signed,
    lookup-modify k k (if_his user) d.world.orders,
  )
