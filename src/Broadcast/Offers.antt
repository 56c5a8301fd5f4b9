-- ===== src/Broadcast/Offers.antt =====
-- Who is offered an order.
use ustabobo_bot.Base.{
  ℕ, ◌≡◌, refl, inl, inr, Bool, false, ◌&&◌, ◌||◌, Option, none, some, List, [], ◌∷◌, ◌++◌, ◌==◌,
  is_some, holds, arith, Bool-cases, Option-cases,
}
use ustabobo_bot.Base.Int.{ℤ}
use ustabobo_bot.Base.Table.{Table, lookup, find_first, find_many}
use ustabobo_bot.Schema.{World, Order, User}
use ustabobo_bot.Broadcast.{
  Sent, offer, place, is_active_driver, send_place, send_offer, send_all, process,
}

-- is an offer of the order among what was sent to the chat
abbrev pub is_offer : ℕ → ℕ → Sent → Bool
is_offer chat id (offer c j) = c == chat && j == id
is_offer chat id (place _ _ _) = false

unfoldable pub is_offered : ℕ → ℕ → List Sent → Bool
is_offered chat id [] = false
is_offered chat id (m ∷ rest) = is_offer chat id m || is_offered chat id rest

-- a driver at this chat
abbrev pub drives_at : ℕ → User → Bool
drives_at chat u = is_active_driver u && holds chat u.tg_id

module _ (delivers : Sent → Bool) (chat id : ℕ) (o : Order) where
  is_offered-append :
      (xs ys : List Sent)
      → is_offered chat id (xs ++ ys) ≡ (is_offered chat id xs || is_offered chat id ys)
  unfolding is_offered
  is_offered-append [] ys = refl
  is_offered-append (m ∷ xs) ys = ground (arith, is_offered-append xs ys)

  is_offered-send_place :
      (c : ℕ) (lat lng : Option ℤ) → is_offered chat id (send_place delivers c lat lng) ≡ false
  unfolding is_offered
  is_offered-send_place c none lng = refl
  is_offered-send_place c (some lat) none = refl
  is_offered-send_place c (some lat) (some lng) = ground arith

  is_offered-send_offer :
      (tg : Option ℕ)
      → is_offered chat id (send_offer delivers tg id o)
        ≡ (holds chat tg && delivers (offer chat id))
  unfolding is_offered
  is_offered-send_offer none = refl
  is_offered-send_offer (some c) = elim (Bool-cases (c == chat)) [
    | inl here ↦
        let same_chat : c ≡ chat = ground arith in
        ground (arith, is_offered-send_place c o.lat o.lng)
    | inr elsewhere ↦ ground (arith, is_offered-send_place c o.lat o.lng)
  ]

  is_offered-send_all :
      (t : Table User)
      → is_offered chat id (send_all delivers (find_many is_active_driver t) id o)
        ≡ (is_some (find_first (drives_at chat) t) && delivers (offer chat id))
  unfolding send_all find_many find_first
  is_offered-send_all [] = unfold is_offered in refl
  is_offered-send_all ((k, u) ∷ t) = elim (Bool-cases (is_active_driver u)) [
    | inr other ↦ ground (arith, is_offered-send_all t)
    | inl drives ↦ ground (
      arith,
      is_offered-send_all t,
      is_offered-append (send_offer delivers u.tg_id id o)
          (send_all delivers (find_many is_active_driver t) id o),
      is_offered-send_offer u.tg_id,
    )
  ]

-- A job offers its order to a chat exactly if the order exists, an active driver has this chat, and
-- Telegram delivers the offer; whether other drivers can be reached makes no difference.
pub process-is_offered :
    (delivers : Sent → Bool) (chat id : ℕ) (w : World)
    → is_offered chat id (process delivers (some id) w) ≡ (
        is_some (lookup id w.orders)
        && is_some (find_first (drives_at chat) w.users)
        && delivers (offer chat id))
unfolding process
process-is_offered delivers chat id w = elim (Option-cases (lookup id w.orders)) [
  | inl gone ↦ unfold is_offered in rw gone refl
  | inr (o, there) ↦ ground (arith, is_offered-send_all delivers chat id o w.users)
]
