-- ===== src/Orders/Figures/Shares.antt =====
-- How the total of an order is shared out.
use ustabobo_bot.Base.{◌≡◌, Option}
use ustabobo_bot.Base.Int.{pos, ◌+ℤ◌}
use ustabobo_bot.Base.Table.{Table}
use ustabobo_bot.Schema.{Order, OrderItem, User}
use ustabobo_bot.Base.Int.{int_laws}
use ustabobo_bot.Orders.Figures.{settle}

-- The total of an order is what the master, the driver and the boss get of it, the last one being
-- negative where the two fees exceed it.
pub settle-split :
    (o : Order) (items : Table OrderItem) (m : User) (d : Option User)
    → pos (settle o items m d).usta_haqi
        +ℤ pos (settle o items m d).kuryer_haqi
        +ℤ (settle o items m d).boss_foyda
      ≡ pos o.total_amount
unfolding settle
settle-split o items m d = grind int_laws
