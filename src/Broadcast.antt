-- ===== src/Broadcast.antt =====
-- src/broadcast/broadcast.processor.ts: the consumer of `broadcast_queue`, which offers an order to the
-- drivers. What Telegram delivers is a parameter: a driver may have blocked the bot. The text of the
-- offer is not kept.
pub mod Offers
use ustabobo_bot.Base.{
  ℕ, Bool, true, false, ◌&&◌, Option, none, some, List, [], ◌∷◌, ◌++◌, is_some, if◌then◌else◌,
}
use ustabobo_bot.Base.Int.{ℤ}
use ustabobo_bot.Base.Table.{Table, lookup, find_many}
use ustabobo_bot.Schema.{World, Order, User, Role, driver}

-- what is sent to a chat
pub data Sent : Type 0 where
  offer : ℕ → ℕ → Sent
  place : ℕ → ℤ → ℤ → Sent

abbrev pub is_driver_role : Role → Bool
is_driver_role driver = true
is_driver_role _ = false

-- `{ role: driver, is_active: true, tg_id: { not: null } }`
abbrev pub is_active_driver : User → Bool
is_active_driver u = is_driver_role u.role && u.is_active && is_some u.tg_id

module _ (delivers : Sent → Bool) where
  abbrev pub send : Sent → List Sent
  send m = if delivers m then m ∷ [] else []

  -- the location follows if the order has one
  abbrev pub send_place : ℕ → Option ℤ → Option ℤ → List Sent
  send_place chat (some lat) (some lng) = send (place chat lat lng)
  send_place chat _ _ = []

  -- the body of the loop: an offer that fails skips the location
  abbrev pub send_offer : Option ℕ → ℕ → Order → List Sent
  send_offer none id o = []
  send_offer (some chat) id o =
      if delivers (offer chat id) then offer chat id ∷ send_place chat o.lat o.lng else []

  unfoldable pub send_all : Table User → ℕ → Order → List Sent
  send_all [] id o = []
  send_all ((_, u) ∷ rest) id o = send_offer u.tg_id id o ++ send_all rest id o

  abbrev pub offer_order : Option Order → ℕ → World → List Sent
  offer_order none id w = []
  offer_order (some o) id w = send_all (find_many is_active_driver w.users) id o

  -- a job of the right name, with the id of an order
  unfoldable pub process : Option ℕ → World → List Sent
  unfolding send_all
  process none w = []
  process (some id) w = offer_order (lookup id w.orders) id w
