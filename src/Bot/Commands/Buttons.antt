-- ===== src/Bot/Commands/Buttons.antt =====
-- The commands of the boss and the buttons of his menu.
use ustabobo_bot.Base.{ℕ, ◌≡◌, ◌≢◌, refl, some}
use ustabobo_bot.Schema.{World, Text, User, Role, boss, master, driver}
use ustabobo_bot.Text.{units, same_text, squeeze, trim, trim_start, trim_end, is_space}
use ustabobo_bot.Bot.Lists.{Listing}
use ustabobo_bot.Bot.Session.{Dialogue, no_right, session_of, say}
use ustabobo_bot.Bot.Session.Access.{require_auth-signed}
use ustabobo_bot.Bot.Texts.{on_text, list_for, normalize_button_text}
use ustabobo_bot.Bot.Commands.{
  Command, ask_today, ask_week, ask_staff, ask_debts, ask_lowstock, on_command, report_for,
  for_boss,
}

-- the label of the button that shows the same report
abbrev pub label : Command → Text
label ask_today = units "📊 Bugungi hisobot"
label ask_week = units "📈 Haftalik hisobot"
label ask_staff = units "👥 Xodimlar faolligi"
label ask_debts = units "🏢 Tashkilot qarzlari"
label ask_lowstock = units "📦 Kam qolgan mahsulotlar"

label-report :
    (now id : ℕ) (u : User) (w : World) (c : Command)
    → list_for boss now id u (normalize_button_text (label c)) w ≡ some (report_for c now w)
unfolding normalize_button_text squeeze trim trim_start trim_end is_space same_text
label-report now id u w ask_today = refl
label-report now id u w ask_week = refl
label-report now id u w ask_staff = refl
label-report now id u w ask_debts = refl
label-report now id u w ask_lowstock = refl

-- For a boss with a running session, a command and its button do the same.
pub on_command-on_text :
    (now tg id : ℕ) (u : User) (d : Dialogue) (c : Command)
    → session_of now (some tg) d.world ≡ some (id, u)
    → u.role ≡ boss
    → on_command now (some tg) c d ≡ on_text now (some tg) (label c) d
unfolding on_command on_text
on_command-on_text now tg id u d c signed role =
    rw (require_auth-signed now (some tg) d signed, role, label-report now id u d.world c) refl

for_boss-other :
    (r : Role) (l : Listing) (d : Dialogue) → r ≢ boss → for_boss r l d ≡ say no_right d
for_boss-other boss l d other = absurd (other refl)
for_boss-other master l d other = refl
for_boss-other driver l d other = refl

-- Whoever is no boss is told that he has no right, and nothing is written out.
pub on_command-no_right :
    (now tg id : ℕ) (u : User) (d : Dialogue) (c : Command)
    → session_of now (some tg) d.world ≡ some (id, u)
    → u.role ≢ boss
    → on_command now (some tg) c d ≡ say no_right d
unfolding on_command
on_command-no_right now tg id u d c signed other =
    rw (require_auth-signed now (some tg) d signed)
      (for_boss-other u.role (report_for c now d.world) d other)
