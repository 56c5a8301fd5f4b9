-- ===== src/Orders/Completion/Outcome.antt =====
-- What a customerConfirm that returns has done, step by step; one that throws has done nothing.
use ustabobo_bot.Base.{ℕ, ◌≡◌, ◌⊎◌, inl, inr, some, List, map, arith, Option-cases}
use ustabobo_bot.Base.Table.{find_first}
use ustabobo_bot.Base.Exec.{ok, err, Error, not_found, bad_token}
use ustabobo_bot.Schema.{World, Env, Order, Settlement}
use ustabobo_bot.Base.Exec.{Result-cases}
use ustabobo_bot.Orders.Figures.{read_settlement}
use ustabobo_bot.Orders.Lifecycle.Completion.{read_settlement-keeps}
use ustabobo_bot.Orders.Completion.{
  awaits, find_by_token, settle_order, check_and_alert, customer_confirm,
}

pub record Success (env : Env) (token : ℕ) (w : World) : Type 0 where
  pub id : ℕ
  pub order : Order
  pub lines : List (ℕ × ℕ)
  pub figures : Settlement
  pub found : find_first (awaits token) w.orders ≡ some (id, order)
  pub was_read : (read_settlement id order w).0 ≡ ok (lines, figures)
  pub settled : (settle_order env id order lines figures w).0 ≡ ok tt
  pub after :
      (customer_confirm env token w).1
      ≡ (check_and_alert (map (λ (p, _). p) lines) (settle_order env id order lines figures w).1).1

module _ (env : Env) (token : ℕ) (w : World) where
  outcome :
      (id : ℕ) (o : Order)
      → find_first (awaits token) w.orders ≡ some (id, o)
      → Success env token w ⊎ ((e : Error) × (customer_confirm env token w ≡ (err e, w)))
  unfolding customer_confirm find_by_token
  outcome id o found = elim (Result-cases (read_settlement id o w).0) [
    | inr (e, unread) ↦ inr (e, ground (arith, read_settlement-keeps id o w))
    | inl ((lines, s), done) ↦ elim (Result-cases (settle_order env id o lines s w).0) [
      | inr (e, failed) ↦ inr (e, ground (arith, read_settlement-keeps id o w))
      | inl (_, settled) ↦ inl (record {
        id = id;
        order = o;
        lines = lines;
        figures = s;
        found = found;
        was_read = done;
        settled = settled;
        after = ground (arith, read_settlement-keeps id o w);
      })
    ]
  ]

  -- A confirmation is all or nothing: either every step of it has been done, or the call threw and
  -- the whole state is as it was.
  pub customer_confirm-outcome :
      Success env token w ⊎ ((e : Error) × (customer_confirm env token w ≡ (err e, w)))
  unfolding customer_confirm find_by_token
  customer_confirm-outcome = elim (Option-cases (find_first (awaits token) w.orders)) [
    | inl missed ↦ inr (not_found bad_token, ground arith)
    | inr ((id, o), found) ↦ outcome id o found
  ]
