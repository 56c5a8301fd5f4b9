-- ===== src/Bot/Callbacks/Laws.antt =====
-- What a button sends is what its handler reads.
use ustabobo_bot.Base.{ℕ, ◌≡◌, refl, true, some, [], ◌∷◌, arith, All}
use ustabobo_bot.Schema.{Text}
use ustabobo_bot.Text.{strip_prefix, is_digit, same_text}
use ustabobo_bot.Text.Decimal.{decimal, parse_int-decimal, decimal-AreDigits, decimal-full}
use ustabobo_bot.Bot.Callbacks.{
  Callback, driver_delivered, master_tarix, driver_tarix, master_faol_refresh, confirm_order,
  cancel_order, add_manual_service, accept_order, confirm_delivery, reject_delivery, start_work,
  decline_work, data_of, all_digits, some_text, some_digits, parse_callback,
}

-- an order id in callback data: some characters on one line
abbrev pub IsIdText : Text → Type 0
IsIdText s = some_text s ≡ some s

-- the ids of a callback
abbrev pub IsSendable : Callback → Type 0
IsSendable (driver_delivered id) = IsIdText id
IsSendable (master_tarix _) = Unit
IsSendable (driver_tarix _) = Unit
IsSendable master_faol_refresh = Unit
IsSendable (confirm_order id) = IsIdText id
IsSendable (cancel_order id) = IsIdText id
IsSendable (add_manual_service id) = IsIdText id
IsSendable (accept_order id) = IsIdText id
IsSendable (confirm_delivery id) = IsIdText id
IsSendable (reject_delivery id) = IsIdText id
IsSendable (start_work id) = IsIdText id
IsSendable (decline_work id) = IsIdText id

all_digits_lem : (s : Text) → All (λ c. is_digit c ≡ true) s → all_digits s ≡ true
unfolding all_digits
all_digits_lem [] h = refl
all_digits_lem (c ∷ s) h = ground (arith, h.0, all_digits_lem s h.1)

some_digits-decimal : (n : ℕ) → some_digits (decimal n) ≡ some n
unfolding some_digits
some_digits-decimal n =
    ground
      (arith, decimal-full n, all_digits_lem (decimal n) (decimal-AreDigits n), parse_int-decimal n)

-- A button's callback data is read back as the same button: a page for any number, an order for any
-- id that is not empty and stands on one line. No pattern above takes the data of another button.
pub parse_callback-data_of : (c : Callback) → IsSendable c → parse_callback (data_of c) ≡ some c
unfolding parse_callback data_of strip_prefix same_text
parse_callback-data_of (driver_delivered id) h = ground arith
parse_callback-data_of (master_tarix n) h = ground (arith, some_digits-decimal n)
parse_callback-data_of (driver_tarix n) h = ground (arith, some_digits-decimal n)
parse_callback-data_of master_faol_refresh h = refl
parse_callback-data_of (confirm_order id) h = ground arith
parse_callback-data_of (cancel_order id) h = ground arith
parse_callback-data_of (add_manual_service id) h = ground arith
parse_callback-data_of (accept_order id) h = ground arith
parse_callback-data_of (confirm_delivery id) h = ground arith
parse_callback-data_of (reject_delivery id) h = ground arith
parse_callback-data_of (start_work id) h = ground arith
parse_callback-data_of (decline_work id) h = ground arith
