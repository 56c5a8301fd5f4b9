-- ===== src/Bot/Texts.antt =====
-- src/bot/bot.update.ts: the two handlers of text messages, onText with the buttons of the menus, and
-- onTextForManualService with its two questions.
pub mod Menus
pub mod Manual
use ustabobo_bot.Base.{
  ℕ, Bool, true, false, not, ◌||◌, Option, none, some, List, [], ◌∷◌, ◌==◌, length, if◌then◌else◌,
}
use ustabobo_bot.Base.Int.{ℤ, pos, negsuc}
use ustabobo_bot.Base.Exec.{Result, ok, err}
use ustabobo_bot.Schema.{World, Env, Text, User, Role, Order, master, driver, boss}
use ustabobo_bot.Text.{trim, units, codes, squeeze, same_text, slice_to, without_spaces}
use ustabobo_bot.Orders.Location.{add_manual_product}
use ustabobo_bot.Bot.Lists.{
  Listing, today, week, staff, debts, low_stock, stats, active, deliveries, history, today_report,
  week_report, staff_report, debts_report, lowstock_report, master_stats, master_faol, master_tarix,
  driver_faol, driver_tarix,
}
use ustabobo_bot.Bot.Session.{
  Dialogue, PendingService, ServiceStep, for_name, for_price, Reply, listing, share_location,
  next_version, ask_name_again, ask_price, ask_price_again, service_added, not_added, log_in_first,
  say, require_auth,
}

-- `normalizeButtonText`
unfoldable pub normalize_button_text : Text → Text
unfolding squeeze trim
normalize_button_text s = trim (squeeze false s)

-- the button with this label, and the same without its picture
abbrev pub is_one_of : Text → Text → Text → Bool
is_one_of n a b = same_text n a || same_text n b

abbrev pub master_list : ℕ → ℕ → User → Text → World → Option Listing
master_list now id u n w =
    if same_text n (units "📋 Faol buyurtmalar")
    then some (active (master_faol id w))
    else if same_text n (units "📜 Buyurtmalar tarixi")
    then some (history (master_tarix 0 id w))
    else if same_text n (units "📊 Mening statistikam")
    then some (stats (master_stats now id u w))
    else none

abbrev pub driver_list : ℕ → Text → World → Option Listing
driver_list id n w =
    if is_one_of n (units "🚗 Faol yetkazishlar") (codes "Faol yetkazishlar")
    then some (deliveries (driver_faol id w))
    else if is_one_of n (units "📜 Yetkazish tarixi") (codes "Yetkazish tarixi")
    then some (history (driver_tarix 0 id w))
    else none

abbrev pub boss_list : ℕ → Text → World → Option Listing
boss_list now n w =
    if is_one_of n (units "📊 Bugungi hisobot") (codes "Bugungi hisobot")
    then some (today (today_report now w))
    else if is_one_of n (units "📈 Haftalik hisobot") (codes "Haftalik hisobot")
    then some (week (week_report now w))
    else if is_one_of n (units "👥 Xodimlar faolligi") (codes "Xodimlar faolligi")
    then some (staff (staff_report now w))
    else if is_one_of n (units "🏢 Tashkilot qarzlari") (codes "Tashkilot qarzlari")
    then some (debts (debts_report w))
    else if is_one_of n (units "📦 Kam qolgan mahsulotlar") (codes "Kam qolgan mahsulotlar")
    then some (low_stock (lowstock_report w))
    else none

abbrev pub list_for : Role → ℕ → ℕ → User → Text → World → Option Listing
list_for master now id u n w = master_list now id u n w
list_for driver now id u n w = driver_list id n w
list_for boss now id u n w = boss_list now n w

-- the three buttons of an older menu
abbrev pub old_button : Text → Dialogue → Dialogue
old_button text d =
    if same_text text (units "📍 Lokatsiya yuborish")
    then say share_location d
    else if same_text text (units "📦 Qabul qildim") || same_text text (units "🔵 Ishni yakunlash")
    then say next_version d
    else d

abbrev pub show_or : Option Listing → Text → Dialogue → Dialogue
show_or none text d = old_button text d
show_or (some l) text d = say (listing l) d

abbrev pub signed_text : ℕ → Text → Option (ℕ × User) × Dialogue → Dialogue
signed_text now text (none, d) = d
signed_text now text (some (id, u), d) =
    show_or (list_for u.role now id u (normalize_button_text text) d.world) text d

unfoldable pub on_text : ℕ → Option ℕ → Text → Dialogue → Dialogue
on_text now none text d = d
on_text now (some tg) text d = signed_text now text (require_auth now (some tg) d)

abbrev pub Pending : Type 0
Pending = List (ℕ × PendingService)

-- `get` and `delete` of the map
unfoldable pub asked : ℕ → Pending → Option PendingService
asked tg [] = none
asked tg ((k, s) ∷ rest) = if k == tg then some s else asked tg rest

unfoldable pub forget : ℕ → Pending → Pending
forget tg [] = []
forget tg ((k, s) ∷ rest) = if k == tg then forget tg rest else (k, s) ∷ forget tg rest

-- `replace(',', '.')`: the first one
unfoldable pub with_point : Text → Text
with_point [] = []
with_point (c ∷ s) = if c == b',' then b'.' ∷ s else c ∷ with_point s

-- the name of the service
abbrev pub take_name : ℕ → Text → PendingService → Dialogue → Dialogue
take_name tg text s d =
    if length text == 0
    then say ask_name_again d
    else say ask_price (record d {
      pending = (tg, record s { step = for_price (slice_to 255 text) }) ∷ forget tg d.pending;
    })

abbrev pub after_added : Text → Result Order × World → Dialogue → Dialogue
after_added name (ok o, w) d = say (service_added name o.total_amount) (record d { world = w })
after_added name (err e, w) d = say (not_added (some e)) (record d { world = w })

-- The parameters read an order id, which makes the database throw on a text that is no uuid, and a
-- number in hundredths as `parseFloat` does, which is `none` where that is not finite.
module _ (id_of : Text → Option ℕ) (parse_float : Text → Option ℤ) where
  abbrev pub add_service : Env → ℕ → Option ℕ → Text → ℤ → Dialogue → Dialogue
  add_service env user none name price d = say (not_added none) d
  add_service env user (some id) name price d =
      after_added name (add_manual_product env id user name (some price) none d.world) d

  abbrev pub signed_price :
      Env → PendingService → Text → ℤ → Option (ℕ × User) × Dialogue → Dialogue
  signed_price env s name price (none, d) = say log_in_first d
  signed_price env s name price (some (user, u), d) =
      add_service env user (id_of s.order) name price d

  -- a price that was read: what is waited for is forgotten first
  abbrev pub take_price : Env → ℕ → PendingService → Text → Option ℤ → Dialogue → Dialogue
  take_price env tg s name none d = say ask_price_again d
  take_price env tg s name (some (negsuc _)) d = say ask_price_again d
  take_price env tg s name (some (pos n)) d =
      signed_price env s name (pos n)
        (require_auth env.now (some tg) (record d { pending = forget tg d.pending }))

  abbrev pub read_price : Text → Option ℤ
  read_price text = parse_float (with_point (without_spaces text))

  abbrev pub take_answer : Env → ℕ → Text → ServiceStep → PendingService → Dialogue → Dialogue
  take_answer env tg text for_name s d = take_name tg text s d
  take_answer env tg text (for_price name) s d = take_price env tg s name (read_price text) d

  abbrev pub if_asked : Env → ℕ → Text → Option PendingService → Dialogue → Dialogue
  if_asked env tg text none d = d
  if_asked env tg text (some s) d = take_answer env tg text s.step s d

  unfoldable pub on_text_for_manual_service : Env → Option ℕ → Text → Dialogue → Dialogue
  unfolding asked trim
  on_text_for_manual_service env none text d = d
  on_text_for_manual_service env (some tg) text d =
      if_asked env tg (trim text) (asked tg d.pending) d

  -- A text message at the two handlers. The first does not call `next`; whether the dispatcher hands
  -- the message on to the second all the same is its own, and the first argument.
  unfoldable pub on_message : Bool → Env → Option ℕ → Text → Dialogue → Dialogue
  on_message hands_on env tg text d =
      if hands_on
      then on_text_for_manual_service env tg text (on_text env.now tg text d)
      else on_text env.now tg text d
