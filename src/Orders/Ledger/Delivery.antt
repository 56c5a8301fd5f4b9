-- ===== src/Orders/Ledger/Delivery.antt =====
-- masterConfirmDelivery (src/orders/orders.service.ts) as a posting to the ledger.
use ustabobo_bot.Base.{
  ℕ, ◌≡◌, refl, inl, inr, Bool, true, false, ◌&&◌, ◌||◌, Option, none, some, ◌∷◌, ◌==◌,
  if◌then◌else◌, arith, Bool-cases, Option-cases,
}
use ustabobo_bot.Base.Table.{lookup, modify, find_first}
use ustabobo_bot.Base.Exec.{ok}
use ustabobo_bot.Schema.{
  World, Env, Order, received_by_driver, waiting_master_delivery_confirmation, delivered_by_driver,
  working, master_confirmed_delivery, master_rejected_delivery,
}
use ustabobo_bot.Prisma.{find_entry, same_entry}
use ustabobo_bot.OrderStatusMachine.{same_status}
use ustabobo_bot.Base.Exec.{Result-cases}
use ustabobo_bot.Orders.Ledger.{Posting, SameMoney-Posting, credit-Posting, Posting-trans}
use ustabobo_bot.Orders.Delivery.{
  master_confirm_delivery, record_delivery, credit_delivery, delivery_entry, credit_driver,
}

credit_delivery-Posting :
    (row id d : ℕ) (w : World)
    → (credit_delivery row id d w).0 ≡ ok tt
    → Posting w (credit_delivery row id d w).1
unfolding credit_delivery find_entry
credit_delivery-Posting row id d w done =
    elim (Option-cases (find_first (same_entry (delivery_entry id d)) w.transactions)) [
      | inl new ↦ credit-Posting row (delivery_entry id d) w _ new (ground arith) (ground arith)
      | inr (_, paid) ↦ SameMoney-Posting w _ (ground arith)
    ]

credit_driver-Posting :
    (row id : ℕ) (confirmed : Bool) (driver_id : Option ℕ) (w : World)
    → (credit_driver row id confirmed driver_id w).0 ≡ ok tt
    → Posting w (credit_driver row id confirmed driver_id w).1
credit_driver-Posting row id false _ w done = SameMoney-Posting w w (refl, refl)
credit_driver-Posting row id true none w done = SameMoney-Posting w w (refl, refl)
credit_driver-Posting row id true (some d) w done = credit_delivery-Posting row id d w done

-- the order with its new status, and the event
abbrev marked : ℕ → ℕ → Bool → World → World
marked id m confirmed w = record w {
  orders =
      modify id (λ o. record o { status = if confirmed then working else received_by_driver })
        w.orders;
  order_events =
      record {
        order_id = id;
        actor_user_id = some m;
        payload = if confirmed then master_confirmed_delivery else master_rejected_delivery;
      }
      ∷ w.order_events;
}

record_delivery-marked :
    (env : Env) (id m : ℕ) (o : Order) (confirmed : Bool) (w : World)
    → (record_delivery env id m o confirmed w).0 ≡ ok tt
    → record_delivery env id m o confirmed w
      ≡ credit_driver (env.uuid 0) id confirmed o.driver_id (marked id m confirmed w)
unfolding record_delivery
record_delivery-marked env id m o confirmed w done = ground arith

record_delivery-Posting :
    (env : Env) (id m : ℕ) (o : Order) (confirmed : Bool) (w : World)
    → (record_delivery env id m o confirmed w).0 ≡ ok tt
    → Posting w (record_delivery env id m o confirmed w).1
record_delivery-Posting env id m o confirmed w done =
    let w' = marked id m confirmed w in
    let e = record_delivery-marked env id m o confirmed w done in
    rw e (
      Posting-trans w w' _ (SameMoney-Posting w w' (refl, refl))
        (credit_driver-Posting (env.uuid 0) id confirmed o.driver_id w' (rw e at done)))

pub master_confirm_delivery-Posting :
    (env : Env) (id m : ℕ) (confirmed : Bool) (w : World)
    → Posting w (master_confirm_delivery env id m confirmed w).1
unfolding master_confirm_delivery
master_confirm_delivery-Posting env id m confirmed w = elim (Option-cases (lookup id w.orders)) [
  | inl absent ↦ SameMoney-Posting w _ (ground arith)
  | inr (o, found) ↦ elim (Result-cases (record_delivery env id m o confirmed w).0) [
    | inr (_, failed) ↦ SameMoney-Posting w _ (ground arith)
    | inl (_, done) ↦
        elim (Bool-cases (
          o.master_id == m
          && (same_status o.status waiting_master_delivery_confirmation
              || same_status o.status delivered_by_driver))) [
                | inr refused ↦ SameMoney-Posting w _ (ground arith)
                | inl allowed ↦
                    Posting-trans w (record_delivery env id m o confirmed w).1 _
                      (record_delivery-Posting env id m o confirmed w done)
                      (SameMoney-Posting _ _ (ground arith))
              ]
  ]
]
