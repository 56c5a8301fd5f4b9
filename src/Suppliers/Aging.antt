-- ===== src/Suppliers/Aging.antt =====
-- src/admin/admin.service.ts: getSupplierDebtSummary, which spreads a supplier's debt over three
-- ages. Payments cover the oldest purchases first.
pub mod Fifo
use ustabobo_bot.Base.{ℕ, ◌+◌, ◌-◌, ◌/◌, min, List, [], ◌∷◌, ltb, leb, ◌==◌, if◌then◌else◌}
use ustabobo_bot.Base.Int.{ℤ}
use ustabobo_bot.Base.Table.{Table}
use ustabobo_bot.Base.Exec.{Exec, gets}
use ustabobo_bot.Schema.{World, Env, Text, Supplier, SupplierPurchase}
use ustabobo_bot.Suppliers.{purchases_sum, payments_sum, debt}

pub record Aging : Type 0 where
  pub age_0_30 : ℕ
  pub age_31_60 : ℕ
  pub age_61_plus : ℕ

-- `Math.floor(diffMs / (1000 * 60 * 60 * 24))`; a purchase dated after `now` counts as new in the
-- source, whose quotient is then negative, and here
abbrev pub days : ℕ → SupplierPurchase → ℕ
days now p = (now - p.created_at) / 86_400_000

-- the three branches at the end of the loop's body
abbrev pub add_age : ℕ → ℕ → Aging → Aging
add_age age remaining a =
    if leb age 30
    then record a { age_0_30 = a.age_0_30 + remaining }
    else if leb age 60
    then record a { age_31_60 = a.age_31_60 + remaining }
    else record a { age_61_plus = a.age_61_plus + remaining }

-- `applied`: nothing once the payments are used up
abbrev pub applied : ℕ → ℕ → ℕ
applied payments total = if ltb 0 payments then min total payments else 0

-- a purchase that is covered is skipped by `continue`
abbrev pub add_purchase : ℕ → ℕ → SupplierPurchase → Aging → Aging
add_purchase now remaining p a = if remaining == 0 then a else add_age (days now p) remaining a

-- the loop, on the payments that remain
unfoldable pub age_all : ℕ → ℕ → List SupplierPurchase → Aging → Aging
age_all now payments [] a = a
age_all now payments (p ∷ rest) a =
    let used = applied payments p.total in
    age_all now (payments - used) rest (add_purchase now (p.total - used) p a)

-- `findMany({ where: { supplier_id }, orderBy: { created_at: 'asc' } })`
unfoldable pub in_order : SupplierPurchase → List SupplierPurchase → List SupplierPurchase
in_order p [] = p ∷ []
in_order p (q ∷ rest) =
    let later = in_order p rest in if ltb p.created_at q.created_at then p ∷ q ∷ rest else q ∷ later

unfoldable pub purchases_asc : ℕ → Table SupplierPurchase → List SupplierPurchase
purchases_asc s [] = []
purchases_asc s ((_, p) ∷ t) =
    let rest = purchases_asc s t in if p.supplier_id == s then in_order p rest else rest

abbrev pub no_debt : Aging
no_debt = record { age_0_30 = 0; age_31_60 = 0; age_61_plus = 0 }

unfoldable pub aging_of : ℕ → ℕ → World → Aging
aging_of now s w = age_all now (payments_sum s w.payments) (purchases_asc s w.purchases) no_debt

-- one row of the answer
pub record Summary : Type 0 where
  pub id : ℕ
  pub fullname : Text
  pub total_purchases : ℕ
  pub total_payments : ℕ
  pub balance : ℤ
  pub aging : Aging

abbrev pub summary : ℕ → World → ℕ → Supplier → Summary
summary now w id s = record {
  id = id;
  fullname = s.fullname;
  total_purchases = purchases_sum id w.purchases;
  total_payments = payments_sum id w.payments;
  balance = debt id w;
  aging = aging_of now id w;
}

unfoldable pub summaries : ℕ → World → Table Supplier → List Summary
unfolding aging_of
summaries now w [] = []
summaries now w ((id, s) ∷ t) =
    let rest = summaries now w t in if s.is_active then summary now w id s ∷ rest else rest

unfoldable pub get_supplier_debt_summary : Env → Exec World (List Summary)
unfolding summaries
get_supplier_debt_summary env = gets (λ w. summaries env.now w w.suppliers)
