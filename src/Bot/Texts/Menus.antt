-- ===== src/Bot/Texts/Menus.antt =====
-- The buttons of the menus: who is shown what.
use mathlib.Core.List.{append-nil}
use ustabobo_bot.Base.{
  ℕ, ◌≡◌, refl, Bool, true, false, ◌||◌, Option, none, some, List, [], ◌∷◌, ◌++◌, if◌then◌else◌,
  Option-cases, inl, inr, sym, All,
}
use ustabobo_bot.Base.Table.{AllRows}
use ustabobo_bot.Schema.{World, Text, User, Role, master, driver, boss}
use ustabobo_bot.Text.{same_text, units, codes}
use ustabobo_bot.Bot.Lists.{
  Listing, today, week, staff, debts, low_stock, stats, active, deliveries, history, today_report,
  week_report, staff_report, debts_report, lowstock_report, master_stats, master_faol, master_tarix,
  driver_faol, driver_tarix,
}
use ustabobo_bot.Bot.Lists.Own.{
  Mastered, Driven, master_faol-Mastered, master_tarix-Mastered, driver_faol-Driven,
  driver_tarix-Driven,
}
use ustabobo_bot.Bot.Session.{
  Dialogue, Reply, listing, session_of, require_auth, say, share_location, next_version,
  log_in_first, ask_again, is_fresh, find_active_chat,
}
use ustabobo_bot.Bot.Session.Access.{require_auth-signed}
use ustabobo_bot.Bot.Texts.{
  on_text, normalize_button_text, list_for, is_one_of, old_button, show_or, signed_text,
}

-- the lists of a role, with orders of this user only
abbrev pub IsOwn : ℕ → Role → Listing → Type 0
IsOwn id master (active t) = AllRows (Mastered id) t
IsOwn id master (history p) = AllRows (Mastered id) p.lines
IsOwn id master (stats _) = Unit
IsOwn id driver (deliveries t) = AllRows (Driven id) t
IsOwn id driver (history p) = AllRows (Driven id) p.lines
IsOwn id boss (today _) = Unit
IsOwn id boss (week _) = Unit
IsOwn id boss (staff _) = Unit
IsOwn id boss (debts _) = Unit
IsOwn id boss (low_stock _) = Unit
IsOwn id _ _ = ⊥

-- the list behind a button, or those of the buttons that follow
abbrev OwnIf : ℕ → Role → Option Listing → Type 0
OwnIf id role none = Unit
OwnIf id role (some l) = IsOwn id role l

or_next :
    (id : ℕ) (role : Role) (b : Bool) (l : Listing) (next : Option Listing)
    → IsOwn id role l
    → OwnIf id role next
    → OwnIf id role (if b then some l else next)
or_next id role true l next h k = h
or_next id role false l next h k = k

module _ (now id : ℕ) (u : User) (n : Text) (w : World) where
  list_for-OwnIf : (role : Role) → OwnIf id role (list_for role now id u n w)
  list_for-OwnIf master =
      or_next id master (same_text n (units "📋 Faol buyurtmalar")) (active (master_faol id w)) _
        (master_faol-Mastered id w)
        (or_next id master (same_text n (units "📜 Buyurtmalar tarixi"))
          (history (master_tarix 0 id w)) _ (master_tarix-Mastered 0 id w)
          (or_next id master (same_text n (units "📊 Mening statistikam"))
            (stats (master_stats now id u w)) none tt tt))
  list_for-OwnIf driver =
      or_next id driver (is_one_of n (units "🚗 Faol yetkazishlar") (codes "Faol yetkazishlar"))
        (deliveries (driver_faol id w)) _ (driver_faol-Driven id w)
        (or_next id driver (is_one_of n (units "📜 Yetkazish tarixi") (codes "Yetkazish tarixi"))
          (history (driver_tarix 0 id w)) none (driver_tarix-Driven 0 id w) tt)
  list_for-OwnIf boss =
      or_next id boss (is_one_of n (units "📊 Bugungi hisobot") (codes "Bugungi hisobot"))
        (today (today_report now w)) _ tt
        (or_next id boss (is_one_of n (units "📈 Haftalik hisobot") (codes "Haftalik hisobot"))
          (week (week_report now w)) _ tt
          (or_next id boss (is_one_of n (units "👥 Xodimlar faolligi") (codes "Xodimlar faolligi"))
            (staff (staff_report now w)) _ tt
            (or_next id boss
              (is_one_of n (units "🏢 Tashkilot qarzlari") (codes "Tashkilot qarzlari"))
              (debts (debts_report w)) _ tt
              (or_next id boss
                (is_one_of n (units "📦 Kam qolgan mahsulotlar") (codes "Kam qolgan mahsulotlar"))
                (low_stock (lowstock_report w)) none tt tt))))

-- a reply that may be sent: a list only to a user with a running session
abbrev pub IsAllowed : Option (ℕ × User) → Reply → Type 0
IsAllowed signed (listing l) = (id : ℕ) × (u : User) × (signed ≡ some (id, u)) × IsOwn id u.role l
IsAllowed signed _ = Unit

-- what a text does to the dialogue
pub record OnlyAnswers (signed : Option (ℕ × User)) (d d' : Dialogue) : Type 0 where
  pub new : List Reply
  pub answered : d'.replies ≡ d.replies ++ new
  pub allowed : All (IsAllowed signed) new
  pub world : d'.world ≡ d.world
  pub pending : d'.pending ≡ d.pending

module _ (signed : Option (ℕ × User)) (d : Dialogue) where
  quiet : OnlyAnswers signed d d
  quiet = record {
    new = [];
    answered = sym (append-nil d.replies);
    allowed = tt;
    world = refl;
    pending = refl;
  }

  one : (r : Reply) → IsAllowed signed r → OnlyAnswers signed d (say r d)
  one r h = record {
    new = r ∷ [];
    answered = refl;
    allowed = (h, tt);
    world = refl;
    pending = refl;
  }

  either :
      (b : Bool) (d1 d2 : Dialogue)
      → OnlyAnswers signed d d1
      → OnlyAnswers signed d d2
      → OnlyAnswers signed d (if b then d1 else d2)
  either true d1 d2 h k = h
  either false d1 d2 h k = k

  old_button-OnlyAnswers : (text : Text) → OnlyAnswers signed d (old_button text d)
  old_button-OnlyAnswers text =
      either (same_text text (units "📍 Lokatsiya yuborish")) (say share_location d) _
        (one share_location tt)
        (either
          (same_text text (units "📦 Qabul qildim") || same_text text (units "🔵 Ishni yakunlash"))
          (say next_version d) d (one next_version tt) quiet)

  show_or-OnlyAnswers :
      (id : ℕ) (u : User) (o : Option Listing) (text : Text)
      → signed ≡ some (id, u)
      → OwnIf id u.role o
      → OnlyAnswers signed d (show_or o text d)
  show_or-OnlyAnswers id u none text e h = old_button-OnlyAnswers text
  show_or-OnlyAnswers id u (some l) text e h = one (listing l) (id, u, e, h)

  ask_again-OnlyAnswers :
      (now : ℕ) (o : Option (ℕ × User)) → OnlyAnswers signed d (ask_again now o d)
  ask_again-OnlyAnswers now none = quiet
  ask_again-OnlyAnswers now (some (id, u)) =
      either (is_fresh now u.last_authenticated_at) d (say log_in_first d) quiet
        (one log_in_first tt)

module _ (now tg : ℕ) (text : Text) (d : Dialogue) where
  text_out :
      session_of now (some tg) d.world ≡ none
      → OnlyAnswers none d (signed_text now text (require_auth now (some tg) d))
  unfolding require_auth
  text_out out = rw out (ask_again-OnlyAnswers none d now (find_active_chat tg d.world))

  text_signed :
      (id : ℕ) (u : User)
      → session_of now (some tg) d.world ≡ some (id, u)
      → OnlyAnswers (some (id, u)) d (signed_text now text (require_auth now (some tg) d))
  text_signed id u signed = rw (require_auth-signed now (some tg) d signed) (
      show_or-OnlyAnswers (some (id, u)) d id u
        (list_for u.role now id u (normalize_button_text text) d.world) text refl
        (list_for-OwnIf now id u (normalize_button_text text) d.world u.role))

  -- A text message at the first handler changes neither the store nor what is waited for. A list is
  -- sent only to a user with a running session, and is one of his role: a boss's figures to a boss, and
  -- to a master or a driver lists with his own orders alone.
  pub on_text-OnlyAnswers :
      OnlyAnswers (session_of now (some tg) d.world) d (on_text now (some tg) text d)
  unfolding on_text
  on_text-OnlyAnswers = elim (Option-cases (session_of now (some tg) d.world)) [
    | inl out ↦ rw out (text_out out)
    | inr ((id, u), signed) ↦ rw signed (text_signed id u signed)
  ]
