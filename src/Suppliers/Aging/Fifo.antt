-- ===== src/Suppliers/Aging/Fifo.antt =====
-- What the ages of a debt add up to.
use ustabobo_bot.Base.{
  ℕ, ◌+◌, ◌-◌, ◌≤◌, ◌≡◌, refl, List, [], ◌∷◌, ltb, leb, ◌==◌, if◌then◌else◌, sum_by, arith, All,
  Bool-cases, inl, inr,
}
use ustabobo_bot.Base.Table.{Table}
use ustabobo_bot.Schema.{World, SupplierPurchase}
use ustabobo_bot.Suppliers.{purchases_sum, payments_sum}
use ustabobo_bot.Suppliers.Aging.{
  Aging, days, applied, add_purchase, age_all, in_order, purchases_asc, aging_of, no_debt,
}

abbrev price : SupplierPurchase → ℕ
price p = p.total

-- the purchases of the list older than `limit` days, in money
abbrev pub older : ℕ → ℕ → SupplierPurchase → ℕ
older now limit p = if leb (days now p) limit then 0 else p.total

-- oldest first
abbrev pub IsAscending : List SupplierPurchase → Type 0
IsAscending [] = Unit
IsAscending (p ∷ rest) = All (λ q. p.created_at ≤ q.created_at) rest × IsAscending rest

all_aged :
    (now payments : ℕ) (ps : List SupplierPurchase) (a : Aging)
    → (age_all now payments ps a).age_0_30
        + (age_all now payments ps a).age_31_60
        + (age_all now payments ps a).age_61_plus
      ≡ a.age_0_30 + a.age_31_60 + a.age_61_plus + (sum_by price ps - payments)
unfolding age_all
all_aged now payments [] a = omega arith
all_aged now payments (p ∷ rest) a =
    let used = applied payments p.total in
    ground (arith, all_aged now (payments - used) rest (add_purchase now (p.total - used) p a))

younger :
    (now limit : ℕ) (p : SupplierPurchase) (ps : List SupplierPurchase)
    → days now p ≤ limit
    → All (λ q. p.created_at ≤ q.created_at) ps
    → sum_by (older now limit) ps ≡ 0
younger now limit p [] young all = refl
younger now limit p (q ∷ ps) young all =
    let below : days now q ≤ limit = omega (arith, young, all.0) in
    ground (arith, younger now limit p ps young all.1)

old_aged :
    (now payments : ℕ) (ps : List SupplierPurchase) (a : Aging)
    → IsAscending ps
    → (age_all now payments ps a).age_61_plus
      ≡ a.age_61_plus + (sum_by (older now 60) ps - payments)
unfolding age_all
old_aged now payments [] a asc = omega arith
old_aged now payments (p ∷ rest) a asc =
    let used = applied payments p.total in
    let later = old_aged now (payments - used) rest (add_purchase now (p.total - used) p a) asc.1 in
    elim (Bool-cases (leb (days now p) 60)) [
      | inl young ↦ ground (arith, later, younger now 60 p rest (ground arith) asc.0)
      | inr old ↦ ground (arith, later)
    ]

middle_aged :
    (now payments : ℕ) (ps : List SupplierPurchase) (a : Aging)
    → IsAscending ps
    → (age_all now payments ps a).age_31_60 + (age_all now payments ps a).age_61_plus
      ≡ a.age_31_60 + a.age_61_plus + (sum_by (older now 30) ps - payments)
unfolding age_all
middle_aged now payments [] a asc = omega arith
middle_aged now payments (p ∷ rest) a asc =
    let used = applied payments p.total in
    let later =
      middle_aged now (payments - used) rest (add_purchase now (p.total - used) p a) asc.1 in
    elim (Bool-cases (leb (days now p) 30)) [
      | inl young ↦ ground (arith, later, younger now 30 p rest (ground arith) asc.0)
      | inr old ↦ ground (arith, later)
    ]

in_order-All :
    (k : ℕ) (p : SupplierPurchase) (ps : List SupplierPurchase)
    → k ≤ p.created_at
    → All (λ q. k ≤ q.created_at) ps
    → All (λ q. k ≤ q.created_at) (in_order p ps)
unfolding in_order
in_order-All k p [] h all = (h, tt)
in_order-All k p (q ∷ ps) h all = elim (Bool-cases (ltb p.created_at q.created_at)) [
  | inl before ↦ rw before (h, all)
  | inr after ↦ rw after (all.0, in_order-All k p ps h all.1)
]

All-weaken :
    (k m : ℕ) (ps : List SupplierPurchase)
    → k ≤ m
    → All (λ q. m ≤ q.created_at) ps
    → All (λ q. k ≤ q.created_at) ps
All-weaken k m [] h all = tt
All-weaken k m (q ∷ ps) h all = (omega (arith, h, all.0), All-weaken k m ps h all.1)

in_order-IsAscending :
    (p : SupplierPurchase) (ps : List SupplierPurchase)
    → IsAscending ps
    → IsAscending (in_order p ps)
unfolding in_order
in_order-IsAscending p [] asc = (tt, tt)
in_order-IsAscending p (q ∷ ps) asc = elim (Bool-cases (ltb p.created_at q.created_at)) [
  | inl before ↦
      let first : p.created_at ≤ q.created_at = ground arith in
      rw before ((first, All-weaken p.created_at q.created_at ps first asc.0), asc)
  | inr after ↦
      rw after
        (in_order-All q.created_at p ps (ground arith) asc.0, in_order-IsAscending p ps asc.1)
]

purchases_asc-IsAscending : (s : ℕ) (t : Table SupplierPurchase) → IsAscending (purchases_asc s t)
unfolding purchases_asc
purchases_asc-IsAscending s [] = tt
purchases_asc-IsAscending s ((_, p) ∷ t) = elim (Bool-cases (p.supplier_id == s)) [
  | inl his ↦ rw his (in_order-IsAscending p (purchases_asc s t) (purchases_asc-IsAscending s t))
  | inr not_his ↦ rw not_his (purchases_asc-IsAscending s t)
]

sum_by-in_order :
    (f : SupplierPurchase → ℕ) (p : SupplierPurchase) (ps : List SupplierPurchase)
    → sum_by f (in_order p ps) ≡ f p + sum_by f ps
unfolding in_order
sum_by-in_order f p [] = omega arith
sum_by-in_order f p (q ∷ ps) = ground (arith, sum_by-in_order f p ps)

-- a supplier's purchases older than so many days, in money
abbrev pub older_sum : ℕ → ℕ → ℕ → Table SupplierPurchase → ℕ
older_sum now limit s [] = 0
older_sum now limit s ((_, p) ∷ t) =
    let rest = older_sum now limit s t in
    if p.supplier_id == s then older now limit p + rest else rest

sum_by-purchases_asc :
    (s : ℕ) (t : Table SupplierPurchase) → sum_by price (purchases_asc s t) ≡ purchases_sum s t
unfolding purchases_asc purchases_sum
sum_by-purchases_asc s [] = refl
sum_by-purchases_asc s ((_, p) ∷ t) =
    ground (arith, sum_by-purchases_asc s t, sum_by-in_order price p (purchases_asc s t))

sum_by-older :
    (now limit s : ℕ) (t : Table SupplierPurchase)
    → sum_by (older now limit) (purchases_asc s t) ≡ older_sum now limit s t
unfolding purchases_asc
sum_by-older now limit s [] = refl
sum_by-older now limit s ((_, p) ∷ t) = elim (Bool-cases (p.supplier_id == s)) [
  | inl his ↦ rw his (
      omega (
        arith,
        sum_by-older now limit s t,
        sum_by-in_order (older now limit) p (purchases_asc s t),
      ))
  | inr not_his ↦ rw not_his (sum_by-older now limit s t)
]

-- The three ages of a supplier's debt add up to his purchases less his payments, and to nothing
-- where he has been paid more.
pub aging_of-total :
    (now s : ℕ) (w : World)
    → (aging_of now s w).age_0_30 + (aging_of now s w).age_31_60 + (aging_of now s w).age_61_plus
      ≡ purchases_sum s w.purchases - payments_sum s w.payments
unfolding aging_of
aging_of-total now s w = omega (
  arith,
  all_aged now (payments_sum s w.payments) (purchases_asc s w.purchases) no_debt,
  sum_by-purchases_asc s w.purchases,
)

-- Payments to a supplier cover the oldest purchases first: what getSupplierDebtSummary shows as owed
-- for purchases older than 60 days is their sum less all the payments, or nothing where the payments
-- are more; and so it is with what it shows for those older than 30 days.
pub aging_of-fifo :
    (now s : ℕ) (w : World)
    → ((aging_of now s w).age_61_plus ≡ older_sum now 60 s w.purchases - payments_sum s w.payments)
      × ((aging_of now s w).age_31_60 + (aging_of now s w).age_61_plus
          ≡ older_sum now 30 s w.purchases - payments_sum s w.payments)
unfolding aging_of
aging_of-fifo now s w =
    let paid = payments_sum s w.payments in
    let ps = purchases_asc s w.purchases in
    let asc = purchases_asc-IsAscending s w.purchases in
    (
      omega (arith, old_aged now paid ps no_debt asc, sum_by-older now 60 s w.purchases),
      omega (arith, middle_aged now paid ps no_debt asc, sum_by-older now 30 s w.purchases),
    )
