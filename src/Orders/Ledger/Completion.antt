-- ===== src/Orders/Ledger/Completion.antt =====
-- customerConfirm (src/orders/orders.service.ts) as a posting to the ledger.
use ustabobo_bot.Base.{
  ℕ, ◌≡◌, refl, ◌⊎◌, inl, inr, true, false, Option, none, some, List, [], ◌∷◌, map, ltb, arith,
  Bool-cases, Option-cases,
}
use ustabobo_bot.Base.Table.{modify, find_first}
use ustabobo_bot.Base.Exec.{ok}
use ustabobo_bot.Schema.{World, Env, Order, Settlement}
use ustabobo_bot.Prisma.{find_entry, same_entry}
use ustabobo_bot.Base.Exec.{Result-cases}
use ustabobo_bot.Orders.Ledger.{
  Posting, SameMoney, SameMoney-Posting, credit-Posting, Posting-trans,
}
use ustabobo_bot.Prisma.{increment}
use ustabobo_bot.Orders.Figures.{read_settlement}
use ustabobo_bot.Orders.Lifecycle.Completion.{read_settlement-keeps}
use ustabobo_bot.Orders.Completion.{
  awaits, find_by_token, take_stock, take_all, post_fees, settle_order, check_and_alert,
  customer_confirm, master_entry, driver_entry,
}

take_stock-SameMoney : (id n : ℕ) (w : World) → SameMoney w (take_stock id n w).1
unfolding take_stock
take_stock-SameMoney id n w = ground arith

pub take_all-SameMoney : (lines : List (ℕ × ℕ)) (w : World) → SameMoney w (take_all lines w).1
unfolding take_all
take_all-SameMoney [] w = (refl, refl)
take_all-SameMoney ((id, n) ∷ lines) w =
    ground (arith, take_stock-SameMoney id n w, take_all-SameMoney lines (take_stock id n w).1)

module _ (env : Env) (id m : ℕ) (s : Settlement) (w : World) where
  -- the master's row and balance, written
  abbrev master_paid : World
  master_paid = record w {
    users = modify m (increment s.usta_haqi) w.users;
    transactions = (env.uuid 0, master_entry id m s.usta_haqi) ∷ w.transactions;
  }

  -- the transaction writes them first, so the rest of the fees starts from here
  master_row-new :
      (driver_id org : Option ℕ)
      → (post_fees env id m driver_id org s w).0 ≡ ok tt
      → find_first (same_entry (master_entry id m s.usta_haqi)) w.transactions ≡ none
  unfolding post_fees find_entry
  master_row-new driver_id org done = ground arith

  no_share-SameMoney :
      (driver_id org : Option ℕ)
      → ((driver_id ≡ none) ⊎ (ltb 0 s.kuryer_haqi ≡ false))
      → (post_fees env id m driver_id org s w).0 ≡ ok tt
      → SameMoney master_paid (post_fees env id m driver_id org s w).1
  unfolding post_fees find_entry
  no_share-SameMoney none none nothing done = ground arith
  no_share-SameMoney none (some _) nothing done = ground arith
  no_share-SameMoney (some d) none nothing done = ground arith
  no_share-SameMoney (some d) (some _) nothing done = ground arith

  share-Posting :
      (d : ℕ) (org : Option ℕ)
      → ltb 0 s.kuryer_haqi ≡ true
      → (post_fees env id m (some d) org s w).0 ≡ ok tt
      → Posting master_paid (post_fees env id m (some d) org s w).1
  unfolding post_fees find_entry
  share-Posting d none share done =
      credit-Posting (env.uuid 1) (driver_entry id d s.kuryer_haqi) master_paid _ (ground arith)
        (ground arith) (ground arith)
  share-Posting d (some _) share done =
      credit-Posting (env.uuid 1) (driver_entry id d s.kuryer_haqi) master_paid _ (ground arith)
        (ground arith) (ground arith)

  -- what follows the master's row and balance
  pub rest-Posting :
      (driver_id org : Option ℕ)
      → (post_fees env id m driver_id org s w).0 ≡ ok tt
      → Posting master_paid (post_fees env id m driver_id org s w).1
  rest-Posting none org done =
      SameMoney-Posting master_paid _ (no_share-SameMoney none org (inl refl) done)
  rest-Posting (some d) org done = elim (Bool-cases (ltb 0 s.kuryer_haqi)) [
    | inl share ↦ share-Posting d org share done
    | inr nothing ↦
        SameMoney-Posting master_paid _ (no_share-SameMoney (some d) org (inr nothing) done)
  ]

  post_fees-Posting :
      (driver_id org : Option ℕ)
      → (post_fees env id m driver_id org s w).0 ≡ ok tt
      → Posting w (post_fees env id m driver_id org s w).1
  post_fees-Posting driver_id org done =
      Posting-trans w master_paid _
        (credit-Posting (env.uuid 0) (master_entry id m s.usta_haqi) w master_paid
          (master_row-new driver_id org done) refl refl)
        (rest-Posting driver_id org done)

settle_order-Posting :
    (env : Env) (id : ℕ) (o : Order) (lines : List (ℕ × ℕ)) (s : Settlement) (w : World)
    → (settle_order env id o lines s w).0 ≡ ok tt
    → Posting w (settle_order env id o lines s w).1
unfolding settle_order
settle_order-Posting env id o lines s w done =
    let w' = (post_fees env id o.master_id o.driver_id o.organization_id s w).1 in
    Posting-trans w w' _
      (post_fees-Posting env id o.master_id s w o.driver_id o.organization_id (ground arith))
      (SameMoney-Posting w' _ (ground (arith, take_all-SameMoney lines w')))

check_and_alert-SameMoney : (ids : List ℕ) (w : World) → SameMoney w (check_and_alert ids w).1
unfolding check_and_alert
check_and_alert-SameMoney ids w = ground arith

pub customer_confirm-Posting :
    (env : Env) (token : ℕ) (w : World) → Posting w (customer_confirm env token w).1
unfolding customer_confirm find_by_token
customer_confirm-Posting env token w = elim (Option-cases (find_first (awaits token) w.orders)) [
  | inl missed ↦ SameMoney-Posting w _ (ground arith)
  | inr ((id, o), found) ↦ elim (Result-cases (read_settlement id o w).0) [
    | inr (_, unread) ↦ SameMoney-Posting w _ (ground (arith, read_settlement-keeps id o w))
    | inl ((lines, s), done) ↦ elim (Result-cases (settle_order env id o lines s w).0) [
      | inr (_, failed) ↦ SameMoney-Posting w _ (ground (arith, read_settlement-keeps id o w))
      | inl (_, settled) ↦
          let w' = (settle_order env id o lines s w).1 in
          Posting-trans w w' _ (settle_order-Posting env id o lines s w settled) (
            SameMoney-Posting w' _ (
              ground (
                arith,
                read_settlement-keeps id o w,
                check_and_alert-SameMoney (map (λ (p, _). p) lines) w',
              )))
    ]
  ]
]
