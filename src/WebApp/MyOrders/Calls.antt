-- ===== src/WebApp/MyOrders/Calls.antt =====
-- What a call of the server does to the orders, and then to the list on the page.
use ustabobo_bot.Base.{
  ℕ, ◌≡◌, ◌≢◌, refl, Bool, true, false, ◌&&◌, ◌||◌, none, some, List, [], ◌∷◌, ◌==◌, All, arith,
  Bool-cases, Option-cases, inl, inr, holds, sym, ◌∙◌,
}
use ustabobo_bot.Base.Table.{Table, lookup, modify, lookup-modify}
use ustabobo_bot.Base.Exec.{Result, ok, err, Error}
use ustabobo_bot.Schema.{
  World, Env, Order, OrderStatus, accepted, received_by_driver, cancelled,
  waiting_customer_confirmation, delivered_by_driver,
}
use ustabobo_bot.OrderStatusMachine.{same_status, can_transition}
use ustabobo_bot.Orders.Work.{cancel_order, finish}
use ustabobo_bot.Orders.Delivery.{driver_delivered_order}
use ustabobo_bot.WebApp.MyOrders.{MyOrder, MyPage, set_status, shown}

-- a row has the status of its order
abbrev pub IsTrue : Table Order → MyOrder → Type 0
IsTrue t r = (o : Order) × (lookup r.id t ≡ some o) × (o.status ≡ r.status)

abbrev pub InSync : MyPage × World → Type 0
InSync (p, w) = All (IsTrue w.orders) p.orders

set_status-IsTrue :
    (t : Table Order) (id : ℕ) (f : Order → Order) (s : OrderStatus) (rs : List MyOrder)
    → ((o : Order) → (f o).status ≡ s)
    → All (IsTrue t) rs
    → All (IsTrue (modify id f t)) (set_status id s rs)
unfolding set_status
set_status-IsTrue t id f s [] sets h = tt
set_status-IsTrue t id f s (r ∷ rs) sets ((o, found, same), h) = elim (Bool-cases (r.id == id)) [
  | inl hit ↦ rw hit (
    (f o, ground (arith, lookup-modify id r.id f t), sets o),
    set_status-IsTrue t id f s rs sets h,
  )
  | inr miss ↦
      rw miss
        ((o, ground (arith, lookup-modify id r.id f t), same), set_status-IsTrue t id f s rs sets h)
]

-- what a call did to the orders: the update, if it returned, and else nothing
pub record Does {ℓ} {A : Type ℓ} (t : Table Order) (id : ℕ) (f : Order → Order)
    (x : Result A × World) : Type ℓ where
  pub done : (a : A) → x.0 ≡ ok a → x.1.orders ≡ modify id f t
  pub threw : (e : Error) → x.0 ≡ err e → x.1.orders ≡ t

pub shown-InSync {ℓ} :
    {A : Type ℓ} (id : ℕ) (s : OrderStatus) (f : Order → Order) (p : MyPage) (w : World)
    (x : Result A × World)
    → Does w.orders id f x
    → ((o : Order) → (f o).status ≡ s)
    → InSync (p, w)
    → InSync (shown id s p x)
shown-InSync id s f p w (ok a, w') does sets h =
    rw (does.done a refl) (set_status-IsTrue w.orders id f s p.orders sets h)
shown-InSync id s f p w (err e, w') does sets h = rw (does.threw e refl) h

pub cancel_order-Does :
    (id user : ℕ) (w : World)
    → Does w.orders id (λ o. record o { status = cancelled }) (cancel_order id user w)
unfolding cancel_order
cancel_order-Does id user w = elim (Option-cases (lookup id w.orders)) [
  | inl absent ↦ record { done = λ a h. ground arith; threw = λ e h. ground arith }
  | inr (o, found) ↦ elim (Bool-cases (o.master_id == user && can_transition o.status cancelled)) [
    | inl allowed ↦ record { done = λ a h. ground arith; threw = λ e h. ground arith }
    | inr refused ↦ record { done = λ a h. ground arith; threw = λ e h. ground arith }
  ]
]

pub driver_delivered_order-Does :
    (id user : ℕ) (w : World)
    → Does w.orders id
        (λ o. record o { status = delivered_by_driver })
        (driver_delivered_order id user w)
unfolding driver_delivered_order
driver_delivered_order-Does id user w = elim (Option-cases (lookup id w.orders)) [
  | inl absent ↦ record { done = λ a h. ground arith; threw = λ e h. ground arith }
  | inr (o, found) ↦
      elim (Bool-cases (
        holds user o.driver_id
        && (same_status o.status accepted || same_status o.status received_by_driver))) [
          | inl allowed ↦ record { done = λ a h. ground arith; threw = λ e h. ground arith }
          | inr refused ↦ record { done = λ a h. ground arith; threw = λ e h. ground arith }
        ]
]

abbrev pub finish_update : Env → Order → Order
finish_update env o = record o {
  confirm_token = some (env.uuid 0);
  status = waiting_customer_confirmation;
}

-- a call that threw, and left the orders as they were
abbrev Threw {ℓ} : {A : Type ℓ} → Table Order → Result A × World → Type ℓ
Threw {A = A} t x = (x.1.orders ≡ t) × ((a : A) → x.0 ≢ ok a)

Threw-Does {ℓ} :
    {A : Type ℓ} (t : Table Order) (id : ℕ) (f : Order → Order) (x : Result A × World)
    → Threw t x
    → Does t id f x
Threw-Does t id f x h = record { done = λ a e. absurd (h.1 a e); threw = λ e k. h.0 }

-- `finish`, where it may and where it may not
module _ (env : Env) (named : Bool) (id user : ℕ) (w : World) (o : Order)
    (found : lookup id w.orders ≡ some o) where
  pub finish-allowed :
      (o.master_id == user && can_transition o.status waiting_customer_confirmation) ≡ true
      → (finish env named id user w).1.orders ≡ modify id (finish_update env) w.orders
  unfolding finish
  finish-allowed allowed = ground arith

  finish-ok :
      (o.master_id == user && can_transition o.status waiting_customer_confirmation) ≡ true
      → (finish env named id user w).0 ≡ ok (env.uuid 0)
  unfolding finish
  finish-ok allowed = ground arith

  finish-refused :
      (o.master_id == user && can_transition o.status waiting_customer_confirmation) ≡ false
      → Threw w.orders (finish env named id user w)
  unfolding finish
  finish-refused refused = (ground arith, λ a h. ground arith)

finish-absent :
    (env : Env) (named : Bool) (id user : ℕ) (w : World)
    → lookup id w.orders ≡ none
    → Threw w.orders (finish env named id user w)
unfolding finish
finish-absent env named id user w absent = (ground arith, λ a h. ground arith)

ok_err : (a : ℕ) (e : Error) → Path (Result ℕ) (ok a) (err e) → ⊥
ok_err a e h = cc

pub finish-Does :
    (env : Env) (named : Bool) (id user : ℕ) (w : World)
    → Does w.orders id (finish_update env) (finish env named id user w)
finish-Does env named id user w = elim (Option-cases (lookup id w.orders)) [
  | inl absent ↦
      Threw-Does w.orders id (finish_update env) (finish env named id user w)
        (finish-absent env named id user w absent)
  | inr (o, found) ↦
      elim (Bool-cases
        (o.master_id == user && can_transition o.status waiting_customer_confirmation)) [
          | inl allowed ↦ record {
            done = λ a h. finish-allowed env named id user w o found allowed;
            threw = λ e h.
                absurd
                  (ok_err (env.uuid 0) e (sym (finish-ok env named id user w o found allowed) ∙ h));
          }
          | inr refused ↦
              Threw-Does w.orders id (finish_update env) (finish env named id user w)
                (finish-refused env named id user w o found refused)
        ]
]
