-- ===== src/Examples/Dialogue.antt =====
-- The theorems on the bot's dialogue at a small database.
use ustabobo_bot.Base.{ℕ, ◌≡◌, refl, false, Option, some, [], ◌∷◌, arith}
use ustabobo_bot.Base.Table.{lookup, find_first}
use ustabobo_bot.Schema.{World, Text, Order, User, master, driver, delivered_by_driver}
use ustabobo_bot.Text.{codes}
use ustabobo_bot.Orders.Draft.{draft_order}
use ustabobo_bot.Orders.Completion.{complete}
use ustabobo_bot.Examples.Shop.{shop, staff, env_at, request}
use ustabobo_bot.Bot.Callbacks.{Callback, data_of, parse_callback, some_text, one_line}
use ustabobo_bot.Bot.Callbacks.Laws.{parse_callback-data_of}
use ustabobo_bot.Bot.Session.{Dialogue, session_of}
use ustabobo_bot.Bot.Session.Access.{HasOneUser}
use ustabobo_bot.Bot.Actions.{Press, press}
use ustabobo_bot.Bot.Actions.Rights.{
  IsForeign, press-signed_out, press-foreign, press-delivered_any_status,
}

-- a completed order, a master who is not its own, and its driver, both logged in a second ago
abbrev closed_row : Order
closed_row = complete 8 (record (draft_order (env_at 5 100) 2 request) { driver_id = some 4 })

abbrev other_master : User
other_master = record (staff master 250_000) { last_authenticated_at = some 1_000 }

abbrev its_driver : User
its_driver = record (staff driver 500_000) { last_authenticated_at = some 1_000 }

abbrev logged_in : World
logged_in = record shop {
  users = (3, other_master) ∷ (4, its_driver) ∷ [];
  orders = (100, closed_row) ∷ [];
}

abbrev talk : Dialogue
talk = record { world = logged_in; pending = []; replies = []; in_auth_scene = false }

abbrev id_of : Text → Option ℕ
id_of s = some 100

-- a button pressed after `n` milliseconds, in the chat of the master and in that of the driver
abbrev by_master : ℕ → Press
by_master n = record { env = env_at n 300; from = some 250_000; message = some (7, 8) }

abbrev by_driver : Press
by_driver = record { env = env_at 2_000 300; from = some 500_000; message = some (7, 8) }

abbrev order_text : Text
order_text = codes "a1"

parse_callback-data_of_example :
    parse_callback (data_of (Callback.accept_order order_text))
    ≡ some (Callback.accept_order order_text)
unfolding some_text one_line
parse_callback-data_of_example = parse_callback-data_of (Callback.accept_order order_text) refl

-- nine hours later
press-signed_out_example :
    ((press id_of (by_master 32_401_000) (codes "cancel_order_a1") talk).world ≡ logged_in)
    × ((press id_of (by_master 32_401_000) (codes "cancel_order_a1") talk).pending ≡ [])
unfolding session_of find_first
press-signed_out_example =
    press-signed_out id_of (by_master 32_401_000) (codes "cancel_order_a1") talk refl

IsForeign-row : IsForeign 3 closed_row
IsForeign-row = record {
  other_master = λ h. ground arith;
  other_driver = λ h. ground arith;
  not_offered = refl;
}

press-foreign_example :
    lookup 100 (press id_of (by_master 2_000) (codes "cancel_order_a1") talk).world.orders
    ≡ some closed_row
unfolding session_of find_first lookup
press-foreign_example =
    press-foreign id_of (by_master 2_000) (codes "cancel_order_a1") talk 3 100 refl refl
      IsForeign-row

press-delivered_any_status_example :
    (lookup 100
        (press id_of by_driver (data_of (Callback.driver_delivered order_text)) talk).world.orders
      ≡ some (record closed_row { status = delivered_by_driver }))
    × ((press id_of by_driver
          (data_of (Callback.driver_delivered order_text))
          talk).world.order_events
        ≡ [])
unfolding session_of find_first lookup some_text one_line
press-delivered_any_status_example =
    press-delivered_any_status id_of by_driver order_text talk 4 100 refl refl refl refl refl refl

one_user : HasOneUser 250_000 logged_in.users
unfolding lookup
one_user j k u v at_j at_k his_j his_k = ground arith

-- a master with a draft that is to be delivered, without items
abbrev with_draft : World
with_draft = record shop {
  users = (2, record (staff master 300_000) { last_authenticated_at = some 1_000 }) ∷ [];
  orders = (100, draft_order (env_at 5 100) 2 request) ∷ [];
}

abbrev at_draft : Dialogue
at_draft = record { world = with_draft; pending = []; replies = []; in_auth_scene = false }
