-- ===== src/Reports/Dashboard/Week.antt =====
-- The days of the dashboard's charts are the last seven days, without a gap and without an overlap.
use ustabobo_bot.Base.{
  ℕ, zero, suc, ◌+◌, ◌*◌, ◌≤◌, ◌≡◌, refl, [], ◌∷◌, map, length, arith, sum_by, ap, ◌∙◌,
}
use ustabobo_bot.Base.Table.{Table, find_many}
use ustabobo_bot.Schema.{World, Order}
use ustabobo_bot.Bot.Lists.{day, midnight, days_ago, created_in, count_orders}
use ustabobo_bot.Reports.Dashboard.{
  days_back, end_of, orders_of_day, WeeklyOrderItem, get_weekly_orders,
}

-- the orders that were created in two periods, one after the other
count-split :
    (a b c : ℕ) (t : Table Order)
    → a ≤ suc b
    → b ≤ c
    → length (find_many (created_in a b) t) + length (find_many (created_in (suc b) c) t)
      ≡ length (find_many (created_in a c) t)
unfolding find_many
count-split a b c [] ab bc = refl
count-split a b c ((k, o) ∷ t) ab bc = ground (arith, count-split a b c t ab bc)

-- a day ends when the next one starts
next_day :
    (n now : ℕ)
    → suc n * day ≤ now
    → midnight (days_ago n now) ≡ suc (end_of (days_ago (suc n) now))
next_day n now h = omega arith

total : World → ℕ → ℕ → ℕ
total w n now = sum_by (λ (r : WeeklyOrderItem). r.count) (map (orders_of_day w) (days_back n now))

days_back-count :
    (w : World) (n now : ℕ)
    → n * day ≤ now
    → total w (suc n) now ≡ count_orders (created_in (midnight (days_ago n now)) (end_of now)) w
unfolding total days_back
days_back-count w zero now h =
    let same : days_ago 0 now ≡ now = omega arith in rw same (omega arith)
days_back-count w (suc n) now h =
    let rest = days_back-count w n now (omega arith) in
    let first = midnight (days_ago (suc n) now) in
    let last = end_of (days_ago (suc n) now) in
    let next : midnight (days_ago n now) ≡ suc last = next_day n now h in
    let rest' : total w (suc n) now ≡ count_orders (created_in (suc last) (end_of now)) w =
      rest ∙ ap (λ m. count_orders (created_in m (end_of now)) w) next in
    let split = count-split first last (end_of now) w.orders (omega arith) (omega (arith, next)) in
    ap (λ m. count_orders (created_in first last) w + m) rest' ∙ split

-- The counts of the seven days add up to the orders that were created since the midnight six days
-- ago and until the end of this day: every one is counted, on one day only.
pub get_weekly_orders-total :
    (now : ℕ) (w : World)
    → 6 * day ≤ now
    → sum_by (λ (r : WeeklyOrderItem). r.count) (get_weekly_orders now w)
      ≡ count_orders (created_in (midnight (days_ago 6 now)) (end_of now)) w
unfolding get_weekly_orders total
get_weekly_orders-total now w h = days_back-count w 6 now h
