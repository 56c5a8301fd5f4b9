-- ===== src/PhoneValidation.antt =====
-- src/common/pipes/phone-validation.pipe.ts: the telephone number that a query parameter holds.
pub mod Digits
use ustabobo_bot.Base.{
  ℕ, ◌⊎◌, inl, inr, Bool, ◌&&◌, List, [], ◌∷◌, leb, ltb, ◌==◌, if◌then◌else◌, length,
}
use ustabobo_bot.Schema.{Text}
use ustabobo_bot.Text.{trim, is_digit}

-- a parameter as it comes in; a number or a Boolean is given by its `String(…)`
pub data Parameter : Type 0 where
  absent object : Parameter
  text primitive : Text → Parameter
  -- an array, by its first element: nothing, a text, an object, a number or a Boolean
  array_of_none array_of_object : Parameter
  array_of_text array_of_primitive : Text → Parameter

pub data PhoneError : Type 0 where
  phone_required phone_invalid : PhoneError

unfoldable pub string_of : Parameter → Text
string_of absent = []
string_of object = []
string_of (text s) = s
string_of (primitive s) = s
string_of array_of_none = []
string_of array_of_object = []
string_of (array_of_text s) = s
string_of (array_of_primitive s) = s

-- `replace(/\D/g, '')`
unfoldable pub only_digits : Text → Text
only_digits [] = []
only_digits (c ∷ s) = let rest = only_digits s in if is_digit c then c ∷ rest else rest

unfoldable pub transform : Parameter → Text ⊎ PhoneError
transform p =
    let trimmed = trim (string_of p) in
    let normalized = only_digits trimmed in
    if length trimmed == 0
    then inr phone_required
    else if ltb (length normalized) 7
    then inr phone_invalid
    else inl normalized
