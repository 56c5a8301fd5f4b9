-- ===== src/Bot/Texts/Manual.antt =====
-- The two questions of a manual service.
use ustabobo_bot.Base.{ℕ, Bool, Option, none, some}
use ustabobo_bot.Base.Int.{ℤ, pos}
use ustabobo_bot.Schema.{World, Env, Text, User}
use ustabobo_bot.Orders.Location.{add_manual_product}
use ustabobo_bot.Bot.Session.{Dialogue, PendingService}
use ustabobo_bot.Bot.Texts.{on_message, on_text_for_manual_service}

module _ (id_of : Text → Option ℕ) (parse_float : Text → Option ℤ) (tg : ℕ) (env : Env) where
  abbrev reply_to : Text → Dialogue → Dialogue
  reply_to = on_text_for_manual_service id_of parse_float env (some tg)

  module _ (user id n : ℕ) (u : User) where
    abbrev added : Text → World → World
    added name w = (add_manual_product env id user name (some (pos n)) none w).1

    module _ (d : Dialogue) (s : PendingService) (name price : Text) where
      -- the messages with the name and with the price
      abbrev two_texts : Bool → Dialogue
      two_texts hands_on =
          on_message id_of parse_float hands_on env (some tg) price
            (on_message id_of parse_float hands_on env (some tg) name d)
