-- ===== src/AdminOrders/Recalculation/Replacement.antt =====
-- The balances and rows after the transaction of a recalculation.
use ustabobo_bot.Base.{
  ℕ, ◌+◌, ◌-◌, ◌≤◌, ◌≡◌, inl, inr, Option, none, some, [], ◌∷◌, ◌==◌, if◌then◌else◌, arith,
  Option-cases,
}
use ustabobo_bot.Base.Int.{pos, ◌+ℤ◌, ◌-ℤ◌}
use ustabobo_bot.Base.Table.{Table, lookup, modify, erase}
use ustabobo_bot.Base.Exec.{ok, transaction}
use ustabobo_bot.Schema.{World, Env, User, Transaction}
use ustabobo_bot.Base.Exec.{Result-cases}
use ustabobo_bot.Base.Table.{lookup-modify}
use ustabobo_bot.Orders.Ledger.{credited, IsBalanced}
use ustabobo_bot.AdminOrders.Recalculation.{amount_of, without_fee, replaced, replace_fees}

-- every balance is what `c` says
abbrev IsGivenBy : Table User → (ℕ → ℕ) → Type 0
IsGivenBy users c = (u : ℕ) (row : User) → lookup u users ≡ some row → row.balance ≡ pos (c u)

abbrev swapped : ℕ → ℕ → ℕ → (ℕ → ℕ) → ℕ → ℕ
swapped m old new c u = if m == u then c u - old + new else c u

replaced-IsGivenBy :
    (m old new : ℕ) (users : Table User) (c : ℕ → ℕ)
    → IsGivenBy users c
    → old ≤ c m
    → IsGivenBy (modify m (replaced old new) users) (swapped m old new c)
unfolding ◌+ℤ◌ ◌-ℤ◌
replaced-IsGivenBy m old new users c b le u row h = elim (Option-cases (lookup u users)) [
  | inl absent ↦ ground (arith, lookup-modify m u (replaced old new) users)
  | inr (before, found) ↦
      ground (arith, lookup-modify m u (replaced old new) users, b u before found)
]

-- an old row, if there is one, is stored and is this user's
abbrev pub IsHis : Option (ℕ × Transaction) → ℕ → Table Transaction → Type 0
IsHis none user rows = Unit
IsHis (some (k, t)) user rows = (lookup k rows ≡ some t) × (t.user_id ≡ user)

erase-credited :
    (k u : ℕ) (t : Transaction) (rows : Table Transaction)
    → lookup k rows ≡ some t
    → credited u (erase k rows) + (if t.user_id == u then t.amount else 0) ≡ credited u rows
unfolding lookup erase
erase-credited k u t [] h = cc
erase-credited k u t ((j, s) ∷ rows) h = ground (arith, erase-credited k u t rows)

without_fee-credited :
    (o : Option (ℕ × Transaction)) (user u : ℕ) (rows : Table Transaction)
    → IsHis o user rows
    → credited u (without_fee o rows) + (if user == u then amount_of o else 0) ≡ credited u rows
without_fee-credited none user u rows h = ground arith
without_fee-credited (some (k, t)) user u rows h = ground (arith, erase-credited k u t rows h.0)

module _ (env : Env) (id m : ℕ) (om od : Option (ℕ × Transaction)) (s q : ℕ) (w : World) where
  abbrev rows : Table Transaction
  rows = without_fee od (without_fee om w.transactions)

  pub replace_fees-alone :
      IsBalanced w.users w.transactions
      → IsHis om m w.transactions
      → od ≡ none
      → IsBalanced
          (transaction (replace_fees env id m none om od s q) w).1.users
          (transaction (replace_fees env id m none om od s q) w).1.transactions
  unfolding replace_fees
  replace_fees-alone b his alone u row h =
      elim (Result-cases (replace_fees env id m none om od s q w).0) [
        | inr (e, failed) ↦ ground (arith, b u row)
        | inl (_, done) ↦ ground (
          arith,
          replaced-IsGivenBy m (amount_of om) s w.users (λ v. credited v w.transactions) b
              (ground (arith, without_fee-credited om m m w.transactions his)) u row,
          without_fee-credited om m u w.transactions his,
        )
      ]

  both-users :
      (d : ℕ)
      → (replace_fees env id m (some d) om od s q w).0 ≡ ok tt
      → (replace_fees env id m (some d) om od s q w).1.users
        ≡ modify d (replaced (amount_of od) q) (modify m (replaced (amount_of om) s) w.users)
  unfolding replace_fees
  both-users d done = ground arith

  both-credited :
      (d u : ℕ)
      → (replace_fees env id m (some d) om od s q w).0 ≡ ok tt
      → credited u (replace_fees env id m (some d) om od s q w).1.transactions
        ≡ (if d == u then q else 0) + ((if m == u then s else 0) + credited u rows)
  unfolding replace_fees
  both-credited d u done = ground arith

  swapped-credited :
      (d u : ℕ)
      → IsHis om m w.transactions
      → IsHis od d (without_fee om w.transactions)
      → swapped d (amount_of od) q (swapped m (amount_of om) s (λ v. credited v w.transactions)) u
        ≡ (if d == u then q else 0) + ((if m == u then s else 0) + credited u rows)
  swapped-credited d u his hers = ground (
    arith,
    without_fee-credited om m u w.transactions his,
    without_fee-credited od d u (without_fee om w.transactions) hers,
  )

  both-IsGivenBy :
      (d : ℕ)
      → IsBalanced w.users w.transactions
      → IsHis om m w.transactions
      → IsHis od d (without_fee om w.transactions)
      → IsGivenBy
          (modify d (replaced (amount_of od) q) (modify m (replaced (amount_of om) s) w.users))
          (swapped d (amount_of od) q (swapped m (amount_of om) s (λ v. credited v w.transactions)))
  both-IsGivenBy d b his hers =
      let c : ℕ → ℕ = λ v. credited v w.transactions in
      let below : amount_of om ≤ c m =
        ground (arith, without_fee-credited om m m w.transactions his) in
      let below_again : amount_of od ≤ swapped m (amount_of om) s c d = ground (
        arith,
        without_fee-credited om m d w.transactions his,
        without_fee-credited od d d (without_fee om w.transactions) hers,
      ) in
      replaced-IsGivenBy d (amount_of od) q (modify m (replaced (amount_of om) s) w.users)
        (swapped m (amount_of om) s c) (replaced-IsGivenBy m (amount_of om) s w.users c b below)
        below_again

  pub replace_fees-both :
      (d : ℕ)
      → IsBalanced w.users w.transactions
      → IsHis om m w.transactions
      → IsHis od d (without_fee om w.transactions)
      → IsBalanced
          (transaction (replace_fees env id m (some d) om od s q) w).1.users
          (transaction (replace_fees env id m (some d) om od s q) w).1.transactions
  replace_fees-both d b his hers u row h =
      elim (Result-cases (replace_fees env id m (some d) om od s q w).0) [
        | inr (e, failed) ↦ ground (arith, b u row)
        | inl (_, done) ↦ ground (
          arith,
          both-users d done,
          both-credited d u done,
          swapped-credited d u his hers,
          both-IsGivenBy d b his hers u row,
        )
      ]
