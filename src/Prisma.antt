-- ===== src/Prisma.antt =====
-- The Prisma calls that the services make, as operations on the tables of `World`
-- (src/prisma/prisma.service.ts hands out the generated client; the constraints are those of
-- prisma/schema.prisma). An update of a missing row throws, and a second transaction row with
-- the same order, user and type violates `@@unique([order_id, user_id, type])`.
use ustabobo_bot.Base.{ℕ, Bool, true, false, ◌&&◌, Option, none, some, ◌∷◌, ◌==◌}
use ustabobo_bot.Base.Int.{pos, ◌+ℤ◌}
use ustabobo_bot.Base.Table.{Table, lookup, modify, find_first, find_many}
use ustabobo_bot.Base.Exec.{Exec, err, ok, Result, record_missing, unique_violation, put, pure}
use ustabobo_bot.Schema.{
  World, Order, EventPayload, User, Organization, Product, Transaction, TransactionType, master_fee,
  driver_fee, delivery_fee, Notice, OrderItem,
}

abbrev pub updated : {A : Type 0} → Option A → (A → A) → World → World → Result A × World
updated none f w w' = (err record_missing, w)
updated (some a) f w w' = (ok (f a), w')

abbrev pub update_order : ℕ → (Order → Order) → Exec World Order
update_order k f w = updated (lookup k w.orders) f w (record w { orders = modify k f w.orders })

abbrev pub update_user : ℕ → (User → User) → Exec World User
update_user k f w = updated (lookup k w.users) f w (record w { users = modify k f w.users })

abbrev pub update_organization : ℕ → (Organization → Organization) → Exec World Organization
update_organization k f w =
    updated (lookup k w.organizations) f w (record w { organizations = modify k f w.organizations })

abbrev pub update_product : ℕ → (Product → Product) → Exec World Product
update_product k f w =
    updated (lookup k w.products) f w (record w { products = modify k f w.products })

-- `data: { balance: { increment: n } }`
abbrev pub increment : ℕ → User → User
increment n u = record u { balance = u.balance +ℤ pos n }

abbrev pub same_type : TransactionType → TransactionType → Bool
same_type master_fee master_fee = true
same_type driver_fee driver_fee = true
same_type delivery_fee delivery_fee = true
same_type _ _ = false

-- the unique key of `Transaction`
abbrev pub same_entry : Transaction → Transaction → Bool
same_entry t u = t.order_id == u.order_id && t.user_id == u.user_id && same_type t.type u.type

-- `transaction.findUnique({ where: { order_id_user_id_type } })`
unfoldable pub find_entry : Transaction → World → Option (ℕ × Transaction)
find_entry t w = find_first (same_entry t) w.transactions

abbrev pub created : Option (ℕ × Transaction) → World → World → Result (Unit {0}) × World
created (some _) w w' = (err unique_violation, w)
created none w w' = (ok tt, w')

-- `transaction.create`
abbrev pub create_transaction : ℕ → Transaction → Exec World (Unit {0})
create_transaction k t w =
    created (find_entry t w) w (record w { transactions = (k, t) ∷ w.transactions })

-- `orderEvent.create`
abbrev pub create_event : ℕ → Option ℕ → EventPayload → Exec World (Unit {0})
create_event order actor payload = put (λ w. record w {
  order_events =
      record { order_id = order; actor_user_id = actor; payload = payload } ∷ w.order_events;
})

-- a message that the bot sends; a failed send is caught and dropped
abbrev pub notify : Notice → Exec World (Unit {0})
notify n = put (λ w. record w { outbox = n ∷ w.outbox })

-- the same, to a user whose `tg_id` is set
abbrev pub notify_user : Option ℕ → (ℕ → Notice) → Exec World (Unit {0})
notify_user none n = pure tt
notify_user (some chat) n = notify (n chat)

-- `include: { orderItems: true }`
unfoldable pub items_of : ℕ → World → Table OrderItem
items_of id w = find_many (λ i. i.order_id == id) w.order_items

-- `user.findUnique({ select: { tg_id: true } })`
abbrev pub tg_of : Option User → Option ℕ
tg_of none = none
tg_of (some u) = u.tg_id
