-- ===== src/Orders/Lifecycle/Completion.antt =====
-- customerConfirm as a change of the orders.
use ustabobo_bot.Base.{
  ℕ, ◌≡◌, refl, inl, inr, true, Option, none, some, List, [], ◌∷◌, map, arith, Option-cases,
}
use ustabobo_bot.Base.Table.{lookup, modify, find_first}
use ustabobo_bot.Base.Exec.{ok}
use ustabobo_bot.Schema.{World, Env, Order, Settlement}
use ustabobo_bot.OrderStatusMachine.{can_transition}
use ustabobo_bot.Base.Exec.{Result-cases}
use ustabobo_bot.Base.Table.{IsKeyed, find_first-test, find_first-lookup}
use ustabobo_bot.Orders.Figures.{read_settlement}
use ustabobo_bot.Orders.Completion.{
  awaits, find_by_token, take_stock, take_all, complete, post_fees, settle_order, check_and_alert,
  customer_confirm,
}
use ustabobo_bot.Orders.Lifecycle.{Change, same, moved}

pub take_stock-orders : (id n : ℕ) (w : World) → (take_stock id n w).1.orders ≡ w.orders
unfolding take_stock
take_stock-orders id n w = ground arith

pub take_all-orders : (lines : List (ℕ × ℕ)) (w : World) → (take_all lines w).1.orders ≡ w.orders
unfolding take_all
take_all-orders [] w = refl
take_all-orders ((id, n) ∷ lines) w =
    ground (arith, take_stock-orders id n w, take_all-orders lines (take_stock id n w).1)

pub post_fees-orders :
    (env : Env) (id m : ℕ) (driver_id org : Option ℕ) (s : Settlement) (w : World)
    → (post_fees env id m driver_id org s w).1.orders ≡ w.orders
unfolding post_fees
post_fees-orders env id m none none s w = ground arith
post_fees-orders env id m none (some _) s w = ground arith
post_fees-orders env id m (some _) none s w = ground arith
post_fees-orders env id m (some _) (some _) s w = ground arith

pub settle_order-orders :
    (env : Env) (id : ℕ) (o : Order) (lines : List (ℕ × ℕ)) (s : Settlement) (w : World)
    → (settle_order env id o lines s w).0 ≡ ok tt
    → (settle_order env id o lines s w).1.orders ≡ modify id (complete env.now) w.orders
unfolding settle_order
settle_order-orders env id o lines s w h = ground (
  arith,
  post_fees-orders env id o.master_id o.driver_id o.organization_id s w,
  take_all-orders lines (post_fees env id o.master_id o.driver_id o.organization_id s w).1,
)

pub read_settlement-keeps : (id : ℕ) (o : Order) (w : World) → (read_settlement id o w).1 ≡ w
unfolding read_settlement
read_settlement-keeps id o w = ground arith

pub check_and_alert-orders :
    (ids : List ℕ) (w : World) → (check_and_alert ids w).1.orders ≡ w.orders
unfolding check_and_alert
check_and_alert-orders ids w = ground arith

module _ (env : Env) (token : ℕ) (w : World) where
  missed_token :
      find_first (awaits token) w.orders ≡ none → (customer_confirm env token w).1.orders ≡ w.orders
  unfolding customer_confirm find_by_token
  missed_token h = ground arith

  -- with a known token all turns on what was read and on the transaction
  known_token :
      {k : ℕ} (id : ℕ) (o : Order)
      → find_first (awaits token) w.orders ≡ some (id, o)
      → awaits token o ≡ true
      → lookup id w.orders ≡ some o
      → Change k w (customer_confirm env token w).1
  unfolding customer_confirm find_by_token
  known_token id o found waits row = elim (Result-cases (read_settlement id o w).0) [
    | inr (_, unread) ↦ same (ground (arith, read_settlement-keeps id o w))
    | inl ((lines, s), done) ↦ elim (Result-cases (settle_order env id o lines s w).0) [
      | inl (_, settled) ↦
          moved id o (complete env.now) row (unfold can_transition in ground arith) (
            ground (
              arith,
              read_settlement-keeps id o w,
              settle_order-orders env id o lines s w settled,
              check_and_alert-orders (map (λ (p, _). p) lines) (settle_order env id o lines s w).1,
            ))
      | inr (_, failed) ↦ same (ground (arith, read_settlement-keeps id o w))
    ]
  ]

pub customer_confirm-Change :
    {k : ℕ} (env : Env) (token : ℕ) (w : World)
    → IsKeyed w.orders
    → Change k w (customer_confirm env token w).1
customer_confirm-Change env token w keyed =
    elim (Option-cases (find_first (awaits token) w.orders)) [
      | inl missed ↦ same (missed_token env token w missed)
      | inr ((id, o), found) ↦
          known_token env token w id o found (find_first-test (awaits token) w.orders id o found)
            (find_first-lookup (awaits token) w.orders id o keyed found)
    ]
