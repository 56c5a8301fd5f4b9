-- ===== src/Orders/Ledger.antt =====
-- The rows of `Transaction` as a ledger behind the balances of the users.
pub mod Calls
pub mod Delivery
pub mod Completion
use ustabobo_bot.Base.{
  ℕ, ◌+◌, ◌≡◌, inl, inr, none, some, [], ◌∷◌, ◌++◌, ◌==◌, if◌then◌else◌, arith, Option-cases,
}
use ustabobo_bot.Base.Int.{pos}
use mathlib.Core.List.{append_assoc}
use ustabobo_bot.Base.Int.{◌+ℤ◌}
use ustabobo_bot.Base.Table.{Table, lookup, modify, find_first}
use ustabobo_bot.Base.Exec.{◌>>=◌}
use ustabobo_bot.Schema.{World, User, Transaction}
use ustabobo_bot.Prisma.{same_entry}
use ustabobo_bot.Prisma.{increment}
use ustabobo_bot.Base.Table.{lookup-modify}

-- what the rows credit a user with
abbrev pub credited : ℕ → Table Transaction → ℕ
credited u [] = 0
credited u ((_, t) ∷ rest) =
    let below = credited u rest in if t.user_id == u then t.amount + below else below

-- every user's balance is what his rows credit him with
abbrev pub IsBalanced : Table User → Table Transaction → Type 0
IsBalanced users rows =
    (u : ℕ) (row : User) → lookup u users ≡ some row → row.balance ≡ pos (credited u rows)

-- no order has two rows of one type for one user
abbrev pub IsUnique : Table Transaction → Type 0
IsUnique [] = Unit
IsUnique ((_, t) ∷ rest) = (find_first (same_entry t) rest ≡ none) × IsUnique rest

-- A call adds rows on top of the ledger, and keeps it balanced and without duplicates.
pub record Posting (w w' : World) : Type 0 where
  pub posted : Table Transaction
  pub appended : w'.transactions ≡ posted ++ w.transactions
  pub balanced : IsBalanced w.users w.transactions → IsBalanced w'.users w'.transactions
  pub unique : IsUnique w.transactions → IsUnique w'.transactions

-- most calls touch neither users nor transactions
abbrev pub SameMoney : World → World → Type 0
SameMoney w w' = (w'.users ≡ w.users) × (w'.transactions ≡ w.transactions)

pub SameMoney-Posting : (w w' : World) → SameMoney w w' → Posting w w'
SameMoney-Posting w w' (u, t) = record {
  posted = [];
  appended = t;
  balanced = rw (u, t) (λ b. b);
  unique = rw t (λ b. b);
}

-- one row and the same amount on the balance
pub credit-IsBalanced :
    (k : ℕ) (t : Transaction) (users : Table User) (rows : Table Transaction)
    → IsBalanced users rows
    → IsBalanced (modify t.user_id (increment t.amount) users) ((k, t) ∷ rows)
unfolding ◌+ℤ◌
credit-IsBalanced k t users rows b u row h = elim (Option-cases (lookup u users)) [
  | inl absent ↦ ground (arith, lookup-modify t.user_id u (increment t.amount) users)
  | inr (old, found) ↦
      ground (arith, lookup-modify t.user_id u (increment t.amount) users, b u old found)
]

pub credit-Posting :
    (k : ℕ) (t : Transaction) (w w' : World)
    → find_first (same_entry t) w.transactions ≡ none
    → w'.users ≡ modify t.user_id (increment t.amount) w.users
    → w'.transactions ≡ (k, t) ∷ w.transactions
    → Posting w w'
credit-Posting k t w w' new users rows = record {
  posted = (k, t) ∷ [];
  appended = rows;
  balanced = λ b. rw (users, rows) (credit-IsBalanced k t w.users w.transactions b);
  unique = λ u. rw rows (new, u);
}

pub Posting-trans : (a b c : World) → Posting a b → Posting b c → Posting a c
Posting-trans a b c p q = record {
  posted = q.posted ++ p.posted;
  appended = rw (append_assoc, ← p.appended) q.appended;
  balanced = λ h. q.balanced (p.balanced h);
  unique = λ h. q.unique (p.unique h);
}
