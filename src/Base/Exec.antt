-- ===== src/Base/Exec.antt =====
-- Handlers: a computation on the stored state that returns a value or throws. What was written
-- before a throw stays written, except inside `$transaction`, which rolls back.
use ustabobo_bot.Base.Tests.{if◌then◌else◌}
use mathlib.Core.Bool.{Bool}
use mathlib.Core.Option.{Option, none, some}
use mathlib.Core.Path.{◌≡◌, refl}
use mathlib.Core.Logic.{◌⊎◌, inl, inr}

-- why a handler refused; the texts of the messages are not kept
pub data Reason : Type 0 where
  order_missing not_yours illegal_transition empty_order foreign_vehicle half_organization : Reason
  services_missing products_missing not_draft empty_name bad_price not_awaiting_delivery : Reason
  bad_token already_taken not_deliverable product_missing out_of_stock user_missing : Reason
  supplier_missing not_completed bad_sale_price bad_period : Reason
  taken_phone taken_login staff_only own_account boss_account : Reason
  bad_credentials boss_only bad_refresh no_role : Reason
  vehicle_missing no_search organization_missing service_missing : Reason
  no_init_data bad_init_data bad_signature stale_init_data no_telegram_user : Reason

-- the exceptions of @nestjs/common that the services throw, and the database errors
pub data Error : Type 0 where
  bad_request not_found forbidden conflict unauthorized : Reason → Error
  unique_violation record_missing foreign_key_violation internal_error : Error

pub data Result {ℓ} (A : Type ℓ) : Type ℓ where
  ok : A → Result A
  err : Error → Result A

abbrev pub Exec {ℓ} : Type ℓ → Type ℓ → Type ℓ
Exec S A = S → Result A × S

module _ {S A : Type 0} where
  abbrev pub pure : A → Exec S A
  pure a s = (ok a, s)

  abbrev pub throw : Error → Exec S A
  throw e s = (err e, s)

  abbrev pub gets : (S → A) → Exec S A
  gets f s = (ok (f s), s)

  -- the record that a query found, or the exception
  abbrev pub or_throw : Option A → Error → Exec S A
  or_throw none e = throw e
  or_throw (some a) _ = pure a

  abbrev pub rollback : Result A × S → S → Result A × S
  rollback (ok a, s') _ = (ok a, s')
  rollback (err e, _) s = (err e, s)

  -- `prisma.$transaction`
  abbrev pub transaction : Exec S A → Exec S A
  transaction m s = rollback (m s) s

module _ {S : Type 0} where
  abbrev pub put : (S → S) → Exec S (Unit {0})
  put f s = (ok tt, f s)

  abbrev pub throw_if : Bool → Error → Exec S (Unit {0})
  throw_if b e = if b then throw e else pure tt

module _ {S A B : Type 0} where
  abbrev pub continue : Result A × S → (A → Exec S B) → Result B × S
  continue (ok a, s) f = f a s
  continue (err e, s) _ = (err e, s)

  infixl 5 ◌>>=◌ ◌>>◌
  abbrev pub ◌>>=◌ : Exec S A → (A → Exec S B) → Exec S B
  ◌>>=◌ m f s = continue (m s) f

  abbrev pub ◌>>◌ : Exec S A → Exec S B → Exec S B
  m >> n = m >>= λ _. n

-- A computation returned or threw.
pub Result-cases {ℓ} :
    {A : Type ℓ} (r : Result A) → ((a : A) × (r ≡ ok a)) ⊎ ((e : Error) × (r ≡ err e))
Result-cases (ok a) = inl (a, refl)
Result-cases (err e) = inr (e, refl)
