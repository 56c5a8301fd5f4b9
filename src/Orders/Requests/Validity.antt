-- ===== src/Orders/Requests/Validity.antt =====
-- The invariant of the table of orders, over every sequence of calls.
use ustabobo_bot.Base.{subst, ℕ, ◌≡◌, inl, inr, none, some, List, [], ◌∷◌, ◌==◌, arith, Bool-cases}
use ustabobo_bot.Base.Table.{lookup}
use ustabobo_bot.Schema.{World, Env, Order, OrderStatus}
use ustabobo_bot.OrderStatusMachine.{can_transition}
use ustabobo_bot.Base.Table.{
  IsKeyed, AllRows, AllRows-lookup, AllRows-modify, modify-IsKeyed, lookup-modify, lookup-cons,
}
use ustabobo_bot.OrderStatusMachine.Edges.{IsFinal}
use ustabobo_bot.Orders.Draft.{CreateOrderDto, draft_order}
use ustabobo_bot.Orders.Lifecycle.{Change, same, opened, moved, IsSound, StepsTo}
use ustabobo_bot.Orders.Lifecycle.Work.{
  confirm-Change, master_start_work-Change, cancel_order-Change, receive-Change, finish-Change,
}
use ustabobo_bot.Orders.Lifecycle.Delivery.{
  driver_accept-Change, driver_finish-Change, driver_delivered_order-Change,
  master_confirm_delivery-Change,
}
use ustabobo_bot.Orders.Lifecycle.Draft.{
  create_draft-Change, set_location-Change, add_location_to_draft-Change, add_manual_product-Change,
}
use ustabobo_bot.Orders.Lifecycle.Completion.{customer_confirm-Change}
use ustabobo_bot.Orders.Requests.{Request, serve, serve_all}

-- An order id is used once, and every stored order is sound: it has a token exactly while it waits
-- for the customer, a completion date exactly if it is completed, and a driver while it is on the
-- way.
pub record IsValid (w : World) : Type 0 where
  pub keyed : IsKeyed w.orders
  pub sound : AllRows IsSound w.orders

draft_order-IsSound : (env : Env) (m : ℕ) (dto : CreateOrderDto) → IsSound (draft_order env m dto)
draft_order-IsSound env m dto = ground arith

Change-IsValid :
    (k : ℕ) (w w' : World) → Change k w w' → lookup k w.orders ≡ none → IsValid w → IsValid w'
Change-IsValid k w w' (same e) fresh v = record { keyed = rw e v.keyed; sound = rw e v.sound }
Change-IsValid k w w' (opened env m dto e) fresh v = record {
  keyed = rw e (fresh, v.keyed);
  sound = rw e (draft_order-IsSound env m dto, v.sound);
}
Change-IsValid k w w' (moved id o f found move e) fresh v = record {
  keyed = rw e (modify-IsKeyed id f w.orders v.keyed);
  sound = rw e (AllRows-modify IsSound id f w.orders v.sound found move.stays_sound);
}

-- On valid orders a call leaves the table of orders alone, adds one draft under the call's first
-- generated id, or makes one move of one order that keeps its master, organization, vehicle, delivery
-- flag and date: a move of the table of transitions, that of driverDelivered, or a draft's new total.
pub serve-Change :
    (env : Env) (r : Request) (w : World) → IsValid w → Change (env.uuid 0) w (serve env r w)
unfolding serve
serve-Change env (Request.create_draft m dto) w v = create_draft-Change env m dto w
serve-Change env (Request.set_location id m lat lng) w v = set_location-Change id m lat lng w
serve-Change env (Request.add_location_to_draft tg lat lng) w v =
    add_location_to_draft-Change tg lat lng w
serve-Change env (Request.add_manual_product id m name price quantity) w v =
    add_manual_product-Change env id m name price quantity w
serve-Change env (Request.confirm id m) w v = confirm-Change id m w
serve-Change env (Request.master_start_work id m) w v = master_start_work-Change id m w
serve-Change env (Request.cancel_order id m) w v = cancel_order-Change id m w
serve-Change env (Request.receive id m) w v = receive-Change id m w
serve-Change env (Request.finish named id m) w v = finish-Change env named id m w
serve-Change env (Request.driver_accept id d) w v = driver_accept-Change id d w
serve-Change env (Request.driver_finish id d) w v = driver_finish-Change id d w
serve-Change env (Request.driver_delivered_order id d) w v =
    driver_delivered_order-Change id d w
      (λ o found. (AllRows-lookup IsSound id w.orders v.sound found).not_accepted)
serve-Change env (Request.master_confirm_delivery id m confirmed) w v =
    master_confirm_delivery-Change env id m confirmed w
serve-Change env (Request.customer_confirm token) w v = customer_confirm-Change env token w v.keyed

serve-IsValid :
    (env : Env) (r : Request) (w : World)
    → lookup (env.uuid 0) w.orders ≡ none
    → IsValid w
    → IsValid (serve env r w)
serve-IsValid env r w fresh v =
    Change-IsValid (env.uuid 0) w (serve env r w) (serve-Change env r w v) fresh v

-- each call's first generated id is that of no order yet
abbrev pub AreFresh : List (Env × Request) → World → Type 0
AreFresh [] w = Unit
AreFresh ((env, r) ∷ rest) w = (lookup (env.uuid 0) w.orders ≡ none) × AreFresh rest (serve env r w)

-- Valid orders stay valid over every sequence of calls whose generated order ids are not in use: one
-- row to an id, a token exactly while the order waits for its customer, a date of completion exactly
-- if it is completed, and a driver while it is on the way.
pub serve_all-IsValid :
    (calls : List (Env × Request)) (w : World)
    → AreFresh calls w
    → IsValid w
    → IsValid (serve_all calls w)
unfolding serve_all
serve_all-IsValid [] w fresh v = v
serve_all-IsValid ((env, r) ∷ rest) w fresh v =
    serve_all-IsValid rest (serve env r w) fresh.1 (serve-IsValid env r w fresh.0 v)

final-no_step : (s t : OrderStatus) → IsFinal s → ¬ StepsTo s t
unfolding can_transition
final-no_step s t final step = ground arith

final-Change :
    (k id : ℕ) (w w' : World) (o : Order)
    → Change k w w'
    → lookup k w.orders ≡ none
    → lookup id w.orders ≡ some o
    → IsFinal o.status
    → lookup id w'.orders ≡ some o
final-Change k id w w' o (same e) fresh found final = rw e found
final-Change k id w w' o (opened env m dto e) fresh found final =
    rw (e, lookup-cons k id _ w.orders) (ground arith)
final-Change k id w w' o (moved j p f at_j move e) fresh found final =
    rw (e, lookup-modify j id f w.orders)
      (elim (Bool-cases (j == id)) [
        | inr other ↦ rw other found
        | inl hit ↦
            let same_row : p ≡ o = ground arith in
            absurd (
              final-no_step o.status (f p).status final
                (subst (λ (x : Order). StepsTo x.status (f p).status) same_row move.steps))
      ])

-- OrdersService leaves a completed or cancelled order alone: among valid orders, no sequence of calls
-- of its handlers, whose generated order ids are not in use, changes any column of it. Writes to the
-- orders that go past OrdersService are not among the calls: those of the administration, and the
-- bot's button of a delivery.
pub final-serve_all :
    (calls : List (Env × Request)) (w : World) (id : ℕ) {o : Order}
    → AreFresh calls w
    → IsValid w
    → lookup id w.orders ≡ some o
    → IsFinal o.status
    → lookup id (serve_all calls w).orders ≡ some o
unfolding serve_all
final-serve_all [] w id fresh v found final = found
final-serve_all ((env, r) ∷ rest) w id {o} fresh v found final =
    final-serve_all rest (serve env r w) id fresh.1 (serve-IsValid env r w fresh.0 v)
      (final-Change (env.uuid 0) id w (serve env r w) o (serve-Change env r w v) fresh.0 found
        final)
      final
