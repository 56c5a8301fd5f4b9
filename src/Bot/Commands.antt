-- ===== src/Bot/Commands.antt =====
-- src/bot/bot.update.ts: the commands of the boss, onBossToday to onBossLowstock, and onCheck.
pub mod Buttons
use ustabobo_bot.Base.{
  ℕ, Bool, true, false, not, ◌&&◌, ◌||◌, Option, none, some, List, [], ◌∷◌, if◌then◌else◌, ◌==◌,
  length,
}
use ustabobo_bot.Base.Table.{find_first}
use ustabobo_bot.Schema.{World, Text, User, Role, boss}
use ustabobo_bot.Text.{trim, same_text, codes}
use ustabobo_bot.Orders.Location.{has_tg}
use ustabobo_bot.Bot.Lists.{
  Listing, today, week, staff, debts, low_stock, today_report, week_report, staff_report,
  debts_report, lowstock_report,
}
use ustabobo_bot.Bot.Session.{
  Dialogue, Reply, listing, no_right, checked, check_missing, say, require_auth, find_active_chat,
}

-- `/today`, `/week`, `/staff`, `/debts`, `/lowstock`
pub data Command : Type 0 where
  ask_today ask_week ask_staff ask_debts ask_lowstock : Command

abbrev pub report_for : Command → ℕ → World → Listing
report_for ask_today now w = today (today_report now w)
report_for ask_week now w = week (week_report now w)
report_for ask_staff now w = staff (staff_report now w)
report_for ask_debts now w = debts (debts_report w)
report_for ask_lowstock now w = low_stock (lowstock_report w)

abbrev pub for_boss : Role → Listing → Dialogue → Dialogue
for_boss boss l d = say (listing l) d
for_boss _ l d = say no_right d

abbrev pub signed_command : ℕ → Command → Option (ℕ × User) × Dialogue → Dialogue
signed_command now c (none, d) = d
signed_command now c (some (id, u), d) = for_boss u.role (report_for c now d.world) d

unfoldable pub on_command : ℕ → Option ℕ → Command → Dialogue → Dialogue
on_command now tg c d = signed_command now c (require_auth now tg d)

abbrev pub report_lock : Option (ℕ × User) → Dialogue → Dialogue
report_lock none d = say check_missing d
report_lock (some (id, u)) d =
    say (checked u.last_authenticated_at u.pin_fail_count u.locked_until) d

-- `onCheck`; the first argument is `DEV_ADMIN_TG_ID`, a number as the other ids of chats
unfoldable pub on_check : Option ℕ → Option ℕ → Dialogue → Dialogue
on_check none tg d = d
on_check (some admin) none d = d
on_check (some admin) (some tg) d =
    if tg == admin then report_lock (find_active_chat tg d.world) d else d
