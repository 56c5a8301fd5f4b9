-- ===== src/AdminOrders/Recalculation.antt =====
-- src/admin/admin.service.ts: recalculateOrderFees, which replaces the fees of a completed order.
pub mod Replacement
pub mod Balance
use ustabobo_bot.Base.{ℕ, Bool, not, ◌&&◌, Option, none, some, ◌==◌}
use ustabobo_bot.Base.Int.{pos, ◌+ℤ◌, ◌-ℤ◌}
use ustabobo_bot.Base.Table.{Table, lookup, erase, find_first}
use ustabobo_bot.Base.Exec.{
  Exec, bad_request, record_missing, pure, gets, put, or_throw, transaction, throw_if, ◌>>=◌, ◌>>◌,
}
use ustabobo_bot.Schema.{
  World, Env, Order, User, Transaction, completed, TransactionType, master_fee, driver_fee,
}
use ustabobo_bot.Prisma.{update_user, create_transaction, items_of, same_type}
use ustabobo_bot.OrderStatusMachine.{same_status}
use ustabobo_bot.Base.Exec.{not_completed}
use ustabobo_bot.Orders.{find_order, read_order}
use ustabobo_bot.Orders.Figures.{fee, services_sum, driver_share, driver_of, delivery_of}
use ustabobo_bot.Orders.Completion.{master_entry, record_driver_fee}

-- `order.transactions.find((t) => t.type === …)`
abbrev pub is_fee : TransactionType → ℕ → Transaction → Bool
is_fee type order t = t.order_id == order && same_type t.type type

unfoldable pub find_fee : TransactionType → ℕ → World → Option (ℕ × Transaction)
find_fee type order w = find_first (is_fee type order) w.transactions

-- the amount of the old row, 0 where there is none
abbrev pub amount_of : Option (ℕ × Transaction) → ℕ
amount_of none = 0
amount_of (some (_, t)) = t.amount

-- `transaction.delete`, if there is an old row
abbrev pub without_fee : Option (ℕ × Transaction) → Table Transaction → Table Transaction
without_fee none rows = rows
without_fee (some (k, _)) rows = erase k rows

-- `balance - old + new`
abbrev pub replaced : ℕ → ℕ → User → User
replaced old new u = record u { balance = (u.balance -ℤ pos old) +ℤ pos new }

-- the row is read and written in one transaction, so what is read is what is replaced
abbrev pub replace_in_balance : ℕ → ℕ → ℕ → Exec World (Unit {0})
replace_in_balance user old new = do update_user user (replaced old new); pure tt

abbrev pub replace_for_driver : Option ℕ → ℕ → ℕ → Exec World (Unit {0})
replace_for_driver none old new = pure tt
replace_for_driver (some d) old new = replace_in_balance d old new

-- the body of `$transaction`
unfoldable pub replace_fees :
    Env
    → ℕ
    → ℕ
    → Option ℕ
    → Option (ℕ × Transaction)
    → Option (ℕ × Transaction)
    → ℕ
    → ℕ
    → Exec World (Unit {0})
replace_fees env id master_id driver_id old_master old_driver usta_haqi kuryer_haqi = do
  put (λ w. record w {
    transactions = without_fee old_driver (without_fee old_master w.transactions);
  })
  replace_in_balance master_id (amount_of old_master) usta_haqi
  replace_for_driver driver_id (amount_of old_driver) kuryer_haqi
  create_transaction (env.uuid 0) (master_entry id master_id usta_haqi)
  record_driver_fee (env.uuid 1) id driver_id kuryer_haqi

unfoldable pub recalculate_order_fees : Env → ℕ → Exec World (Option Order)
unfolding fee services_sum items_of find_fee
recalculate_order_fees env id = do
  o ← find_order id
  throw_if (not (same_status o.status completed)) (bad_request not_completed)
  items ← gets (items_of id)
  master_row ← gets (λ w. lookup o.master_id w.users)
  m ← or_throw master_row record_missing
  d ← gets (driver_of o.driver_id)
  let usta_haqi = fee (services_sum 0 items) m.percent_rate
  let kuryer_haqi = driver_share d (delivery_of o.delivery_needed)
  old_master ← gets (find_fee master_fee id)
  old_driver ← gets (find_fee driver_fee id)
  transaction
      (replace_fees env id o.master_id o.driver_id old_master old_driver usta_haqi kuryer_haqi)
  read_order id
