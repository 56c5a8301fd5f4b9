-- ===== src/Orders/Completion/Effects.antt =====
-- What a confirmation that returns has done to the store and to the order; its token is spent.
use ustabobo_bot.Base.{
  ℕ, ◌+◌, ◌≡◌, refl, inl, inr, Bool, false, Option, none, some, List, [], ◌∷◌, map, arith,
  Bool-cases,
}
use ustabobo_bot.Base.Table.{Table, modify, find_first, find_many}
use ustabobo_bot.Base.Exec.{ok, err, not_found, bad_token}
use ustabobo_bot.Schema.{World, Env, Order, Settlement}
use ustabobo_bot.Base.Table.{IsKeyed, find_first-lookup}
use ustabobo_bot.Orders.Completion.{
  awaits, find_by_token, complete, post_fees, settle_order, check_and_alert, customer_confirm,
}
use ustabobo_bot.Orders.Completion.Outcome.{Success}
use ustabobo_bot.Orders.Completion.Stock.{stock_of, needed, take_all-stock}
use ustabobo_bot.Orders.Lifecycle.Completion.{settle_order-orders}

pub post_fees-products :
    (env : Env) (id m : ℕ) (d g : Option ℕ) (s : Settlement) (w : World)
    → (post_fees env id m d g s w).1.products ≡ w.products
unfolding post_fees
post_fees-products env id m d g s w = ground arith

settle_order-stock :
    (env : Env) (id : ℕ) (o : Order) (lines : List (ℕ × ℕ)) (s : Settlement) (w : World) (p : ℕ)
    → (settle_order env id o lines s w).0 ≡ ok tt
    → stock_of p (settle_order env id o lines s w).1 + needed p lines ≡ stock_of p w
unfolding settle_order
settle_order-stock env id o lines s w p done = ground (
  arith,
  post_fees-products env id o.master_id o.driver_id o.organization_id s w,
  take_all-stock lines (post_fees env id o.master_id o.driver_id o.organization_id s w).1
      (ground arith) p,
)

check_and_alert-keeps :
    (ids : List ℕ) (w : World)
    → ((check_and_alert ids w).1.products ≡ w.products)
      × ((check_and_alert ids w).1.orders ≡ w.orders)
unfolding check_and_alert
check_and_alert-keeps ids w = (ground arith, ground arith)

-- no second order waits under the token
abbrev pub IsOnly : ℕ → ℕ → Order → World → Type 0
IsOnly token id o w = find_many (awaits token) w.orders ≡ (id, o) ∷ []

find_none : {A : Type 0} (p : A → Bool) (t : Table A) → find_many p t ≡ [] → find_first p t ≡ none
unfolding find_many find_first
find_none p [] h = refl
find_none p ((j, b) ∷ t) h = ground (arith, find_none p t)

find_one :
    {A : Type 0} (p : A → Bool) (t : Table A) (k : ℕ) (a : A)
    → find_many p t ≡ (k, a) ∷ []
    → find_first p t ≡ some (k, a)
unfolding find_many find_first
find_one p [] k a h = ground arith
find_one p ((j, b) ∷ t) k a h = ground (arith, find_one p t k a)

find_first-taken :
    {A : Type 0} (p : A → Bool) (f : A → A) (t : Table A) (k : ℕ) (a : A)
    → IsKeyed t
    → find_many p t ≡ (k, a) ∷ []
    → p (f a) ≡ false
    → find_first p (modify k f t) ≡ none
unfolding find_many find_first modify
find_first-taken p f [] k a keyed h gone = ground arith
find_first-taken p f ((j, b) ∷ t) k a keyed h gone = elim (Bool-cases (p b)) [
  | inl hit ↦ ground (arith, find_none p t)
  | inr miss ↦
      let below : find_many p t ≡ (k, a) ∷ [] = ground arith in
      ground (
        arith,
        find_first-lookup p t k a keyed.1 (find_one p t k a below),
        find_first-taken p f t k a keyed.1 below gone,
      )
]

module _ (env : Env) (token : ℕ) (w : World) (s : Success env token w) where
  abbrev pub confirmed : World
  confirmed = (customer_confirm env token w).1

  abbrev pub paid : World
  paid = (settle_order env s.id s.order s.lines s.figures w).1

  confirmed-keeps : (confirmed.products ≡ paid.products) × (confirmed.orders ≡ paid.orders)
  confirmed-keeps =
      let kept = check_and_alert-keeps (map (λ (p, _). p) s.lines) paid in
      (rw s.after kept.0, rw s.after kept.1)

  -- A confirmation that goes through has taken out of the store, of every product, just what the
  -- order's product lines ask for.
  pub customer_confirm-stock : (p : ℕ) → stock_of p confirmed + needed p s.lines ≡ stock_of p w
  customer_confirm-stock p =
      ground (
        arith,
        confirmed-keeps,
        settle_order-stock env s.id s.order s.lines s.figures w p s.settled,
      )

  -- It goes through once: where order ids are distinct and no other order waits under the token, a
  -- second call with that token, at whatever time, is refused as not found and changes nothing.
  pub customer_confirm-once :
      (later : Env)
      → IsKeyed w.orders
      → IsOnly token s.id s.order w
      → customer_confirm later token confirmed ≡ (err (not_found bad_token), confirmed)
  unfolding customer_confirm find_by_token
  customer_confirm-once later keyed only = ground (
    arith,
    confirmed-keeps,
    settle_order-orders env s.id s.order s.lines s.figures w s.settled,
    find_first-taken (awaits token) (complete env.now) w.orders s.id s.order keyed only
        (ground arith),
  )
