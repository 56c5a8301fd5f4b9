-- ===== src/Orders/Completion/Progress.antt =====
-- When a confirmation goes through.
use ustabobo_bot.Base.{
  ℕ, ◌-◌, ◌≤◌, ◌≡◌, refl, inl, inr, Bool, true, false, Option, none, some, List, [], ◌∷◌, map,
  is_some, arith, Option-cases,
}
use ustabobo_bot.Base.Table.{Table, lookup, find_first}
use ustabobo_bot.Base.Exec.{ok}
use ustabobo_bot.Schema.{World, Env, Order, User, Settlement}
use ustabobo_bot.Prisma.{items_of, find_entry}
use ustabobo_bot.Base.Table.{IsKeyed, lookup-modify, find_first-lookup}
use ustabobo_bot.Orders.Figures.{read_settlement, driver_of, settle, product_items}
use ustabobo_bot.Orders.Completion.{
  awaits, find_by_token, complete, master_entry, driver_entry, post_fees, settle_order, take_stock,
  take_all, check_and_alert, customer_confirm,
}
use ustabobo_bot.Orders.Completion.Stock.{stock_of, needed, take_stock-stock}
use ustabobo_bot.Orders.Completion.Effects.{post_fees-products}
use ustabobo_bot.Prisma.{increment}
use ustabobo_bot.Orders.Lifecycle.Completion.{
  post_fees-orders, take_all-orders, check_and_alert-orders, settle_order-orders,
  read_settlement-keeps,
}

-- every product of the lines exists
abbrev pub AreKnown : List (ℕ × ℕ) → World → Type 0
AreKnown [] w = Unit
AreKnown ((j, _) ∷ rest) w = (is_some (lookup j w.products) ≡ true) × AreKnown rest w

-- and there are as many of each as the lines ask for
abbrev pub IsEnough : List (ℕ × ℕ) → World → Type 0
IsEnough lines w = (p : ℕ) → needed p lines ≤ stock_of p w

take_stock-ok :
    (id n : ℕ) (w : World)
    → is_some (lookup id w.products) ≡ true
    → n ≤ stock_of id w
    → (take_stock id n w).0 ≡ ok tt
unfolding take_stock
take_stock-ok id n w known enough = ground arith

take_stock-known :
    (id n j : ℕ) (w : World)
    → is_some (lookup j w.products) ≡ true
    → is_some (lookup j (take_stock id n w).1.products) ≡ true
unfolding take_stock
take_stock-known id n j w known =
    ground
      (arith, lookup-modify id j (λ r. record r { stock_count = r.stock_count - n }) w.products)

take_stock-AreKnown :
    (id n : ℕ) (lines : List (ℕ × ℕ)) (w : World)
    → AreKnown lines w
    → AreKnown lines (take_stock id n w).1
take_stock-AreKnown id n [] w known = tt
take_stock-AreKnown id n ((j, m) ∷ lines) w known =
    (take_stock-known id n j w known.0, take_stock-AreKnown id n lines w known.1)

-- The stock loop gets through where every product is there and in stock for all the lines that ask
-- for it together.
pub take_all-ok :
    (lines : List (ℕ × ℕ)) (w : World)
    → AreKnown lines w
    → IsEnough lines w
    → (take_all lines w).0 ≡ ok tt
unfolding take_all
take_all-ok [] w known enough = refl
take_all-ok ((id, n) ∷ lines) w known enough =
    let once : (take_stock id n w).0 ≡ ok tt =
      take_stock-ok id n w known.0 (ground (arith, enough id)) in
    let left : IsEnough lines (take_stock id n w).1 =
      λ p. ground (arith, enough p, take_stock-stock id n w once p) in
    ground (
      arith,
      once,
      take_all-ok lines (take_stock id n w).1 (take_stock-AreKnown id n lines w known.1) left,
    )

-- the rows that the payments need, and no row of a payment for this order yet
abbrev pub is_known : {A : Type 0} → Option ℕ → Table A → Bool
is_known none t = true
is_known (some k) t = is_some (lookup k t)

abbrev pub is_paid : ℕ → Option ℕ → World → Bool
is_paid id none w = false
is_paid id (some d) w = is_some (find_entry (driver_entry id d 0) w)

pub record IsPayable (id : ℕ) (o : Order) (w : World) : Type 0 where
  pub master_known : is_some (lookup o.master_id w.users) ≡ true
  pub driver_known : is_known o.driver_id w.users ≡ true
  pub organization_known : is_known o.organization_id w.organizations ≡ true
  pub master_unpaid : is_some (find_entry (master_entry id o.master_id 0) w) ≡ false
  pub driver_unpaid : is_paid id o.driver_id w ≡ false

-- with the driver, the organization and the rest of the order apart
payments-ok :
    (env : Env) (id m : ℕ) (d g : Option ℕ) (s : Settlement) (w : World)
    → is_some (lookup m w.users) ≡ true
    → is_known d w.users ≡ true
    → is_known g w.organizations ≡ true
    → is_some (find_entry (master_entry id m 0) w) ≡ false
    → is_paid id d w ≡ false
    → (post_fees env id m d g s w).0 ≡ ok tt
unfolding post_fees find_entry find_first
payments-ok env id m none none s w hm hd hg um ud = ground arith
payments-ok env id m none (some g) s w hm hd hg um ud = ground arith
payments-ok env id m (some d) none s w hm hd hg um ud =
    ground (arith, lookup-modify m d (increment s.usta_haqi) w.users)
payments-ok env id m (some d) (some g) s w hm hd hg um ud =
    ground (arith, lookup-modify m d (increment s.usta_haqi) w.users)

AreKnown-moved :
    (lines : List (ℕ × ℕ)) (w w' : World)
    → w'.products ≡ w.products
    → AreKnown lines w
    → AreKnown lines w'
AreKnown-moved [] w w' e known = tt
AreKnown-moved ((j, n) ∷ lines) w w' e known =
    (ground (arith, known.0), AreKnown-moved lines w w' e known.1)

settle_order-ok :
    (env : Env) (id : ℕ) (o : Order) (lines : List (ℕ × ℕ)) (s : Settlement) (w : World)
    → IsPayable id o w
    → AreKnown lines w
    → IsEnough lines w
    → lookup id w.orders ≡ some o
    → (settle_order env id o lines s w).0 ≡ ok tt
unfolding settle_order
settle_order-ok env id o lines s w p known enough row =
    let w' = (post_fees env id o.master_id o.driver_id o.organization_id s w).1 in
    let shelf = post_fees-products env id o.master_id o.driver_id o.organization_id s w in
    let stocked : IsEnough lines w' = λ q. ground (arith, enough q, shelf) in
    ground (
      arith,
      payments-ok env id o.master_id o.driver_id o.organization_id s w p.master_known p.driver_known
          p.organization_known p.master_unpaid p.driver_unpaid,
      take_all-ok lines w' (AreKnown-moved lines w w' shelf known) stocked,
      post_fees-orders env id o.master_id o.driver_id o.organization_id s w,
      take_all-orders lines w',
    )

-- the product lines of a stored order
abbrev pub lines_of : ℕ → World → List (ℕ × ℕ)
lines_of id w = product_items (items_of id w)

abbrev figures_of : ℕ → Order → User → World → Settlement
figures_of id o m w = settle o (items_of id w) m (driver_of o.driver_id w)

read-ok :
    (id : ℕ) (o : Order) (m : User) (w : World)
    → lookup o.master_id w.users ≡ some m
    → (read_settlement id o w).0 ≡ ok (lines_of id w, figures_of id o m w)
unfolding read_settlement
read-ok id o m w row = ground arith

check_and_alert-ok : (ids : List ℕ) (w : World) → (check_and_alert ids w).0 ≡ ok tt
unfolding check_and_alert
check_and_alert-ok ids w = refl

-- once the figures are read and the transaction has gone through
answered :
    (env : Env) (token : ℕ) (w : World) (id : ℕ) (o : Order) (lines : List (ℕ × ℕ)) (s : Settlement)
    → find_first (awaits token) w.orders ≡ some (id, o)
    → lookup id w.orders ≡ some o
    → (read_settlement id o w).0 ≡ ok (lines, s)
    → (settle_order env id o lines s w).0 ≡ ok tt
    → (customer_confirm env token w).0 ≡ ok (some (complete env.now o))
unfolding customer_confirm find_by_token
answered env token w id o lines s found stored was_read settled =
    let done : lookup id (settle_order env id o lines s w).1.orders ≡ some (complete env.now o) =
      ground (
        arith,
        settle_order-orders env id o lines s w settled,
        lookup-modify id id (complete env.now) w.orders,
      ) in
    let told =
      check_and_alert-orders (map (λ (q, _). q) lines) (settle_order env id o lines s w).1 in
    rw (found, was_read, read_settlement-keeps id o w)
      (rw settled (
        ground (
          arith,
          done,
          told,
          check_and_alert-ok (map (λ (q, _). q) lines) (settle_order env id o lines s w).1,
        )))

-- A confirmation goes through, and returns the order as completed, where order ids are distinct, its
-- master, driver and organization are stored, no fee of the order has been booked to them, and its
-- products are in stock for all its lines together.
pub customer_confirm-ok :
    (env : Env) (token : ℕ) (w : World) (id : ℕ) (o : Order)
    → IsKeyed w.orders
    → find_first (awaits token) w.orders ≡ some (id, o)
    → IsPayable id o w
    → AreKnown (lines_of id w) w
    → IsEnough (lines_of id w) w
    → (customer_confirm env token w).0 ≡ ok (some (complete env.now o))
customer_confirm-ok env token w id o keyed found p known enough =
    elim (Option-cases (lookup o.master_id w.users)) [
      | inl missing ↦ ground (arith, p.master_known)
      | inr (m, row) ↦
          let stored = find_first-lookup (awaits token) w.orders id o keyed found in
          answered env token w id o (lines_of id w) (figures_of id o m w) found stored
            (read-ok id o m w row)
            (settle_order-ok env id o (lines_of id w) (figures_of id o m w) w p known enough stored)
    ]
