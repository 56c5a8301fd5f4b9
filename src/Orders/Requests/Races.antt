-- ===== src/Orders/Requests/Races.antt =====
-- Calls that race for one order: the loser is refused and changes nothing.
use ustabobo_bot.Base.{
  ℕ, ◌≡◌, refl, inl, inr, Bool, true, Option, some, List, [], ◌∷◌, ◌++◌, map, is_some, arith,
  Option-cases,
}
use ustabobo_bot.Base.Table.{Table, lookup, find_first}
use ustabobo_bot.Base.Exec.{ok, err, conflict, unique_violation, already_taken, transaction}
use ustabobo_bot.Schema.{World, Env, Order, Transaction, received_by_driver, Settlement}
use ustabobo_bot.Prisma.{find_entry, same_entry}
use ustabobo_bot.Base.Table.{lookup-modify}
use ustabobo_bot.Orders.Delivery.{driver_accept}
use ustabobo_bot.Orders.Completion.{master_entry, post_fees, settle_order, check_and_alert}
use ustabobo_bot.Orders.Completion.Outcome.{Success}
use ustabobo_bot.Orders.Completion.Effects.{confirmed, paid}
use ustabobo_bot.Orders.Ledger.Completion.{take_all-SameMoney, rest-Posting}
use ustabobo_bot.Orders.Requests.{Request, serve_all}
use ustabobo_bot.Orders.Requests.Money.{serve_all-Posting}

-- The first driver to accept an order has it: it is stored as his, on the way, and the next
-- acceptance, by whomever, is refused as a conflict and changes nothing.
pub driver_accept-once :
    (id d e : ℕ) (w : World) (o : Option Order)
    → (driver_accept id d w).0 ≡ ok o
    → ((o' : Order) × (lookup id (driver_accept id d w).1.orders ≡ some o')
        × (o'.driver_id ≡ some d)
        × (o'.status ≡ received_by_driver))
      × (driver_accept id e (driver_accept id d w).1
          ≡ (err (conflict already_taken), (driver_accept id d w).1))
unfolding driver_accept
driver_accept-once id d e w o done = elim (Option-cases (lookup id w.orders)) [
  | inl missing ↦ ground arith
  | inr (old, found) ↦
      let f : Order → Order = λ p. record p { driver_id = some d; status = received_by_driver } in
      (
        (f old, ground (arith, lookup-modify id id f w.orders), refl, refl),
        ground (arith, lookup-modify id id f w.orders),
      )
]

find_first-append :
    {A : Type 0} (p : A → Bool) (xs t : Table A)
    → is_some (find_first p t) ≡ true
    → is_some (find_first p (xs ++ t)) ≡ true
unfolding find_first
find_first-append p [] t h = h
find_first-append p ((j, b) ∷ xs) t h = ground (arith, find_first-append p xs t h)

-- the master's fee of the order has been booked
abbrev IsBooked : ℕ → ℕ → World → Type 0
IsBooked id m w = is_some (find_first (same_entry (master_entry id m 0)) w.transactions) ≡ true

head-IsBooked :
    (k id m n : ℕ) (t : Table Transaction)
    → is_some (find_first (same_entry (master_entry id m 0)) ((k, master_entry id m n) ∷ t)) ≡ true
unfolding find_first
head-IsBooked k id m n t = ground arith

post_fees-IsBooked :
    (env : Env) (id m : ℕ) (d g : Option ℕ) (s : Settlement) (w : World)
    → (post_fees env id m d g s w).0 ≡ ok tt
    → IsBooked id m (post_fees env id m d g s w).1
post_fees-IsBooked env id m d g s w done =
    let rest = rest-Posting env id m s w d g done in
    rw rest.appended (
      find_first-append (same_entry (master_entry id m 0)) rest.posted
        ((env.uuid 0, master_entry id m s.usta_haqi) ∷ w.transactions)
        (head-IsBooked (env.uuid 0) id m s.usta_haqi w.transactions))

settle_order-IsBooked :
    (env : Env) (id : ℕ) (o : Order) (lines : List (ℕ × ℕ)) (s : Settlement) (w : World)
    → (settle_order env id o lines s w).0 ≡ ok tt
    → IsBooked id o.master_id (settle_order env id o lines s w).1
unfolding settle_order
settle_order-IsBooked env id o lines s w done = ground (
  arith,
  post_fees-IsBooked env id o.master_id o.driver_id o.organization_id s w,
  take_all-SameMoney lines (post_fees env id o.master_id o.driver_id o.organization_id s w).1,
)

booked-refused :
    (env : Env) (id : ℕ) (o : Order) (lines : List (ℕ × ℕ)) (s : Settlement) (w : World)
    → IsBooked id o.master_id w
    → transaction (settle_order env id o lines s) w ≡ (err unique_violation, w)
unfolding settle_order post_fees find_entry find_first
booked-refused env id o lines s w booked = ground arith

check_and_alert-transactions :
    (ids : List ℕ) (w : World) → (check_and_alert ids w).1.transactions ≡ w.transactions
unfolding check_and_alert
check_and_alert-transactions ids w = ground arith

confirmed-IsBooked :
    (env : Env) (token : ℕ) (w : World) (s : Success env token w)
    → IsBooked s.id s.order.master_id (confirmed env token w s)
confirmed-IsBooked env token w s =
    let booked = settle_order-IsBooked env s.id s.order s.lines s.figures w s.settled in
    let same_rows = check_and_alert-transactions (map (λ (p, _). p) s.lines) (paid env token w s) in
    rw s.after (rw same_rows booked)

-- Two confirmations that both found the waiting order: once one has gone through, the transaction of
-- the other, started after any further calls, violates the unique key and is rolled back as a whole.
pub customer_confirm-race :
    (env : Env) (token : ℕ) (w : World) (s : Success env token w) (calls : List (Env × Request))
    (other : Env)
    → transaction
        (settle_order other s.id s.order s.lines s.figures)
        (serve_all calls (confirmed env token w s))
      ≡ (err unique_violation, serve_all calls (confirmed env token w s))
customer_confirm-race env token w s calls other =
    let p = serve_all-Posting calls (confirmed env token w s) in
    booked-refused other s.id s.order s.lines s.figures (serve_all calls (confirmed env token w s))
      (rw p.appended (
        find_first-append (same_entry (master_entry s.id s.order.master_id 0)) p.posted
          (confirmed env token w s).transactions (confirmed-IsBooked env token w s)))
