-- ===== src/AdminOrders/Recalculation/Balance.antt =====
-- The balances after a recalculation.
use ustabobo_bot.Base.{
  ℕ, ◌≡◌, refl, ◌≢◌, inl, inr, Option, none, some, subst, sym, arith, Bool-cases, Option-cases,
}
use ustabobo_bot.Base.Table.{lookup, lookup-erase}
use ustabobo_bot.Base.Exec.{Exec, transaction, ◌>>◌}
use ustabobo_bot.Schema.{
  World, Env, Order, Transaction, completed, TransactionType, master_fee, driver_fee,
}
use ustabobo_bot.Prisma.{items_of}
use ustabobo_bot.OrderStatusMachine.{same_status}
use ustabobo_bot.Base.Exec.{Result-cases}
use ustabobo_bot.Base.Table.{IsKeyed, find_first-lookup, find_first-test}
use ustabobo_bot.Orders.Ledger.{IsBalanced}
use ustabobo_bot.Orders.{read_order}
use ustabobo_bot.Orders.Figures.{fee, services_sum, driver_share, driver_of, delivery_of}
use ustabobo_bot.AdminOrders.Recalculation.{
  is_fee, find_fee, without_fee, replace_fees, recalculate_order_fees,
}
use ustabobo_bot.AdminOrders.Recalculation.Replacement.{
  IsHis, replace_fees-alone, replace_fees-both,
}

-- the fee rows of the order are those of its master and of its driver
pub record AreTheirs (id : ℕ) (o : Order) (w : World) : Type 0 where
  pub of_master :
      (k : ℕ) (t : Transaction) → find_fee master_fee id w ≡ some (k, t) → t.user_id ≡ o.master_id
  pub of_driver :
      (k : ℕ) (t : Transaction)
      → find_fee driver_fee id w ≡ some (k, t)
      → some t.user_id ≡ o.driver_id

module _ (id : ℕ) (w : World) (keyed : IsKeyed w.transactions) where
  found-IsHis :
      (type : TransactionType) (user : ℕ)
      → ((k : ℕ) (t : Transaction) → find_fee type id w ≡ some (k, t) → t.user_id ≡ user)
      → IsHis (find_fee type id w) user w.transactions
  unfolding find_fee
  found-IsHis type user his = elim (Option-cases (find_fee type id w)) [
    | inl absent ↦ rw absent tt
    | inr ((k, t), found) ↦
        rw found (find_first-lookup (is_fee type id) w.transactions k t keyed found, his k t found)
  ]

  still-IsHis :
      (m d : ℕ)
      → IsHis (find_fee master_fee id w) m w.transactions
      → IsHis (find_fee driver_fee id w) d w.transactions
      → IsHis (find_fee driver_fee id w) d (without_fee (find_fee master_fee id w) w.transactions)
  unfolding find_fee
  still-IsHis m d hers his = elim (Option-cases (find_fee driver_fee id w)) [
    | inl absent ↦ rw absent tt
    | inr ((j, s), found) ↦ elim (Option-cases (find_fee master_fee id w)) [
      | inl alone ↦ rw alone his
      | inr ((k, t), other) ↦
          let apart : k ≢ j = λ e. ground (
            arith,
            find_first-lookup (is_fee driver_fee id) w.transactions j s keyed found,
            find_first-lookup (is_fee master_fee id) w.transactions k t keyed other,
            find_first-test (is_fee driver_fee id) w.transactions j s found,
            find_first-test (is_fee master_fee id) w.transactions k t other,
          ) in
          let his_row : IsHis (some (j, s)) d w.transactions =
            subst (λ x. IsHis x d w.transactions) found his in
          rw (found, other) (rw (lookup-erase k j w.transactions apart) his_row.0, his_row.1)
    ]
  ]

read_order-keeps :
    (m : Exec World (Unit {0})) (id : ℕ) (w : World) → ((m >> read_order id) w).1 ≡ (m w).1
read_order-keeps m id w = elim (Result-cases (m w).0) [
  | inl (_, done) ↦ ground arith
  | inr (e, failed) ↦ ground arith
]

module _ (env : Env) (id : ℕ) (w : World) (o : Order) where
  replaced_fees :
      (d : Option ℕ) (s q : ℕ)
      → IsKeyed w.transactions
      → IsBalanced w.users w.transactions
      → AreTheirs id o w
      → o.driver_id ≡ d
      → IsBalanced
          (transaction
            (replace_fees env id o.master_id d
              (find_fee master_fee id w)
              (find_fee driver_fee id w)
              s
              q)
            w).1.users
          (transaction
            (replace_fees env id o.master_id d
              (find_fee master_fee id w)
              (find_fee driver_fee id w)
              s
              q)
            w).1.transactions
  replaced_fees none s q keyed b theirs e =
      replace_fees-alone env id o.master_id (find_fee master_fee id w) (find_fee driver_fee id w) s
        q w b (found-IsHis id w keyed master_fee o.master_id theirs.of_master)
        (elim (Option-cases (find_fee driver_fee id w)) [
          | inl absent ↦ absent
          | inr ((k, t), found) ↦ ground (arith, theirs.of_driver k t)
        ])
  replaced_fees (some d) s q keyed b theirs e =
      let hers = found-IsHis id w keyed master_fee o.master_id theirs.of_master in
      let his =
        found-IsHis id w keyed driver_fee d (λ k t found. ground (arith, theirs.of_driver k t)) in
      replace_fees-both env id o.master_id (find_fee master_fee id w) (find_fee driver_fee id w) s q
        w d b hers (still-IsHis id w keyed o.master_id d hers his)

  abbrev replacement : ℕ → ℕ → Exec World (Unit {0})
  replacement s q = transaction (
      replace_fees env id o.master_id o.driver_id (find_fee master_fee id w)
        (find_fee driver_fee id w) s q)

  after :
      (s q : ℕ)
      → lookup id w.orders ≡ some o
      → IsKeyed w.transactions
      → AreTheirs id o w
      → IsBalanced w.users w.transactions
      → IsBalanced
          ((replacement s q >> read_order id) w).1.users
          ((replacement s q >> read_order id) w).1.transactions
  after s q found keyed theirs b =
      subst (λ v. IsBalanced v.users v.transactions) (sym (read_order-keeps (replacement s q) id w))
        (replaced_fees o.driver_id s q keyed b theirs refl)

  -- A recalculation keeps the ledger: if every balance is the sum of its user's rows, and the fee rows
  -- of the order are those of its present master and driver, then every balance is that sum again.
  pub recalculate_order_fees-IsBalanced :
      lookup id w.orders ≡ some o
      → IsKeyed w.transactions
      → AreTheirs id o w
      → IsBalanced w.users w.transactions
      → IsBalanced
          (recalculate_order_fees env id w).1.users
          (recalculate_order_fees env id w).1.transactions
  unfolding recalculate_order_fees
  recalculate_order_fees-IsBalanced found keyed theirs b =
      rw found (elim (Bool-cases (same_status o.status completed)) [
        | inr open_ ↦ rw open_ b
        | inl done ↦ rw done (elim (Option-cases (lookup o.master_id w.users)) [
          | inl missing ↦ rw missing b
          | inr (m, is_m) ↦ rw is_m (
              after (fee (services_sum 0 (items_of id w)) m.percent_rate)
                (driver_share (driver_of o.driver_id w) (delivery_of o.delivery_needed)) found keyed
                theirs b)
        ])
      ])
