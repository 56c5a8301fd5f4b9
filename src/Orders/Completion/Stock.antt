-- ===== src/Orders/Completion/Stock.antt =====
-- The stock loop of customerConfirm.
use ustabobo_bot.Base.{
  ℕ, ◌+◌, ◌-◌, ◌≡◌, Option, none, some, List, [], ◌∷◌, ◌==◌, if◌then◌else◌, arith,
}
use ustabobo_bot.Base.Table.{lookup}
use ustabobo_bot.Base.Exec.{ok}
use ustabobo_bot.Schema.{World, Product}
use ustabobo_bot.Base.Table.{lookup-modify}
use ustabobo_bot.Orders.Completion.{take_stock, take_all}

abbrev pub count_of : Option Product → ℕ
count_of none = 0
count_of (some p) = p.stock_count

-- how many of a product are in the store
abbrev pub stock_of : ℕ → World → ℕ
stock_of p w = count_of (lookup p w.products)

-- how many of a product the lines take in all
abbrev pub needed : ℕ → List (ℕ × ℕ) → ℕ
needed p [] = 0
needed p ((j, n) ∷ rest) = (if j == p then n else 0) + needed p rest

pub take_stock-stock :
    (id n : ℕ) (w : World)
    → (take_stock id n w).0 ≡ ok tt
    → (p : ℕ) → stock_of p (take_stock id n w).1 + (if id == p then n else 0) ≡ stock_of p w
unfolding take_stock
take_stock-stock id n w done p =
    ground
      (arith, lookup-modify id p (λ r. record r { stock_count = r.stock_count - n }) w.products)

-- A loop that gets through has taken of every product just what the lines ask for.
pub take_all-stock :
    (lines : List (ℕ × ℕ)) (w : World)
    → (take_all lines w).0 ≡ ok tt
    → (p : ℕ) → stock_of p (take_all lines w).1 + needed p lines ≡ stock_of p w
unfolding take_all
take_all-stock [] w done p = omega arith
take_all-stock ((id, n) ∷ lines) w done p = ground (
  arith,
  take_stock-stock id n w (ground arith) p,
  take_all-stock lines (take_stock id n w).1 (ground arith) p,
)
