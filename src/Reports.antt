-- ===== src/Reports.antt =====
-- src/admin/admin.service.ts: the reports of the administration, which only read the database. A date
-- of a request is `none` where it is missing or no date; the clock of the server is in UTC.
pub mod Groups
pub mod Overall
pub mod Clients
pub mod History
pub mod Dashboard
pub mod Sheets
use ustabobo_bot.Base.{
  ℕ, ◌+◌, ◌-◌, ◌*◌, ◌/◌, Bool, true, false, ◌&&◌, Option, none, some, List, [], ◌∷◌, leb, ◌==◌,
  if◌then◌else◌, holds,
}
use ustabobo_bot.Base.Table.{Table, find_many}
use ustabobo_bot.Schema.{
  World, Text, Order, User, Transaction, TransactionType, OrderStatus, completed,
}
use ustabobo_bot.Prisma.{same_type}
use ustabobo_bot.OrderStatusMachine.{same_status}

abbrev pub day_length : ℕ
day_length = 86_400_000

-- `date.setHours(23, 59, 59, 999)`
abbrev pub end_of_day : ℕ → ℕ
end_of_day t = t / day_length * day_length + (day_length - 1)

-- `completed_at: { gte, lte }`, which no order without the date meets
abbrev pub in_period : ℕ → ℕ → Option ℕ → Bool
in_period from to none = false
in_period from to (some t) = leb from t && leb t to

-- a filter that is left out lets every value pass
abbrev pub passes : Option ℕ → ℕ → Bool
passes none k = true
passes (some j) k = k == j

abbrev pub passes_opt : Option ℕ → Option ℕ → Bool
passes_opt none k = true
passes_opt (some j) k = holds j k

-- `transactions.filter(type).reduce(amount)` of an order
unfoldable pub paid : TransactionType → ℕ → Table Transaction → ℕ
paid type id [] = 0
paid type id ((_, t) ∷ rest) =
    let others = paid type id rest in
    if t.order_id == id && same_type t.type type then t.amount + others else others

abbrev pub fullname_of : Option User → Text
fullname_of none = []
fullname_of (some u) = u.fullname
