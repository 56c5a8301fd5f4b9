-- ===== src/Bot/Callbacks.antt =====
-- src/bot/keyboards.ts and the `@Action` patterns of src/bot/bot.update.ts: the callback data of the
-- inline buttons, and how it is read. An order id is a text here, as it stands in the data.
pub mod Laws
use ustabobo_bot.Base.{
  ℕ, ◌+◌, ◌-◌, Bool, true, false, not, ◌&&◌, ◌||◌, Option, none, some, List, [], ◌∷◌, ◌++◌, ◌==◌,
  ltb, if◌then◌else◌, length,
}
use ustabobo_bot.Schema.{Text}
use ustabobo_bot.Text.{codes, strip_prefix, is_digit, same_text}
use ustabobo_bot.Text.Decimal.{decimal, parse_int}

pub data Callback : Type 0 where
  driver_delivered : Text → Callback
  master_tarix driver_tarix : ℕ → Callback
  master_faol_refresh : Callback
  confirm_order cancel_order add_manual_service accept_order : Text → Callback
  confirm_delivery reject_delivery start_work decline_work : Text → Callback

-- the template literals of the keyboards
unfoldable pub data_of : Callback → Text
data_of (driver_delivered id) = codes "driver_delivered_" ++ id
data_of (master_tarix skip) = codes "master_tarix_" ++ decimal skip
data_of (driver_tarix skip) = codes "driver_tarix_" ++ decimal skip
data_of master_faol_refresh = codes "master_faol_refresh"
data_of (confirm_order id) = codes "confirm_order_" ++ id
data_of (cancel_order id) = codes "cancel_order_" ++ id
data_of (add_manual_service id) = codes "add_manual_service_" ++ id
data_of (accept_order id) = codes "accept_" ++ id
data_of (confirm_delivery id) = codes "confirm_delivery_" ++ id
data_of (reject_delivery id) = codes "reject_delivery_" ++ id
data_of (start_work id) = codes "start_work_" ++ id
data_of (decline_work id) = codes "decline_work_" ++ id

-- a character that `.` does not match
abbrev pub is_line_end : ℕ → Bool
is_line_end c = c == 10 || c == 13 || c == 0x2028 || c == 0x2029

unfoldable pub one_line : Text → Bool
one_line [] = true
one_line (c ∷ s) = not (is_line_end c) && one_line s

unfoldable pub all_digits : Text → Bool
all_digits [] = true
all_digits (c ∷ s) = is_digit c && all_digits s

-- the group `(.+)` and the group `(\d+)`
unfoldable pub some_text : Text → Option Text
some_text s = if not (length s == 0) && one_line s then some s else none

unfoldable pub some_digits : Text → Option ℕ
some_digits s = if not (length s == 0) && all_digits s then some (parse_int s) else none

-- the next pattern, where the one before has not matched
abbrev pub otherwise : Option Callback → Option Callback → Option Callback
otherwise none b = b
otherwise (some a) b = some a

abbrev pub as_order : (Text → Callback) → Option Text → Option Callback
as_order f none = none
as_order f (some s) = elim (some_text s) [ none ↦ none | some id ↦ some (f id) ]

abbrev pub as_page : (ℕ → Callback) → Option Text → Option Callback
as_page f none = none
as_page f (some s) = elim (some_digits s) [ none ↦ none | some n ↦ some (f n) ]

-- the handlers in the order in which they are declared
unfoldable pub parse_callback : Text → Option Callback
parse_callback s =
    otherwise (as_order driver_delivered (strip_prefix (codes "driver_delivered_") s)) (
      otherwise (as_page master_tarix (strip_prefix (codes "master_tarix_") s)) (
        otherwise (as_page driver_tarix (strip_prefix (codes "driver_tarix_") s)) (
          otherwise
            (if same_text (codes "master_faol_refresh") s then some master_faol_refresh else none)
            (otherwise (as_order confirm_order (strip_prefix (codes "confirm_order_") s)) (
              otherwise (as_order cancel_order (strip_prefix (codes "cancel_order_") s)) (
                otherwise
                  (as_order add_manual_service (strip_prefix (codes "add_manual_service_") s))
                  (otherwise (as_order accept_order (strip_prefix (codes "accept_") s)) (
                    otherwise
                      (as_order confirm_delivery (strip_prefix (codes "confirm_delivery_") s))
                      (otherwise
                        (as_order reject_delivery (strip_prefix (codes "reject_delivery_") s))
                        (otherwise (as_order start_work (strip_prefix (codes "start_work_") s))
                          (as_order decline_work (strip_prefix (codes "decline_work_") s))))))))))))
