-- ===== src/Reports/History/Daily.antt =====
-- Which orders the daily report has. CRON_SCHEDULE of src/bot/cron/daily-report.cron.ts starts it at
-- 14:00, while its window ends at 19:00 of the same clock.
use ustabobo_bot.Base.{ℕ, ◌*◌, ◌%◌, ◌≤◌, ◌<◌, ◌≡◌, ◌≢◌, true, false, some, [], ◌∷◌, Bool, arith}
use ustabobo_bot.Base.Table.{Table, lookup, find_many}
use ustabobo_bot.Schema.{World, Order}
use ustabobo_bot.Reports.History.{is_in_daily, daily_report}

abbrev pub hour : ℕ
hour = 3_600_000

-- a run of the schedule `0 14 * * *`
abbrev pub IsRun : ℕ → Type 0
IsRun now = now % 86_400_000 ≡ 14 * 3_600_000

-- in the window of no run that it precedes
abbrev pub IsBetween : ℕ → Type 0
IsBetween t = (14 * 3_600_000 < t % 86_400_000) × (t % 86_400_000 < 19 * 3_600_000)

out_of_window :
    (now : ℕ) (o : Order)
    → IsRun now
    → o.created_at ≤ now
    → IsBetween o.created_at
    → is_in_daily now o ≡ false
out_of_window now o run before between = ground arith

find_many-test :
    (test : Order → Bool) (k : ℕ) (o : Order) (t : Table Order)
    → lookup k (find_many test t) ≡ some o
    → test o ≡ true
unfolding find_many lookup
find_many-test test k o [] h = cc
find_many-test test k o ((j, a) ∷ t) h = ground (arith, find_many-test test k o t)

-- An order that was made after 14:00 and before 19:00 is in no daily report, in none of the runs that
-- come after it.
pub daily_report-between :
    (now id : ℕ) (w : World) (o : Order)
    → IsRun now
    → o.created_at ≤ now
    → IsBetween o.created_at
    → lookup id (daily_report now w).orders ≢ some o
unfolding daily_report
daily_report-between now id w o run before between there =
    let hit = find_many-test (is_in_daily now) id o w.orders there in
    let miss = out_of_window now o run before between in cc
