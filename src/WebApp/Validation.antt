-- ===== src/WebApp/Validation.antt =====
-- webapp/utils/validation.ts: telephone numbers and number plates.
pub mod Plates
use ustabobo_bot.Base.{
  ℕ, zero, suc, ◌-◌, Bool, true, false, not, ◌&&◌, ◌||◌, Option, none, some, [], ◌∷◌, ◌==◌, leb,
  length, if◌then◌else◌,
}
use ustabobo_bot.Schema.{Text}
use ustabobo_bot.Text.{trim, codes, strip_prefix, is_digit, squeeze, without_spaces}

-- `value.replace(/\D/g, "")`
unfoldable pub digits_of : Text → Text
digits_of [] = []
digits_of (c ∷ s) = if is_digit c then c ∷ digits_of s else digits_of s

abbrev pub national : Text → Option Text → Text
national digits none = digits
national digits (some rest) = if length digits == 12 then rest else digits

-- `normalizeUzbekPhone`
unfoldable pub normalize_phone : Text → Text
unfolding digits_of strip_prefix
normalize_phone s = national (digits_of s) (strip_prefix (codes "998") (digits_of s))

abbrev pub starts_with_9 : Text → Bool
starts_with_9 [] = false
starts_with_9 (c ∷ _) = c == b'9'

-- `isValidUzbekPhone`; the normalized text has digits only
unfoldable pub is_valid_phone : Text → Bool
unfolding normalize_phone
is_valid_phone s = length (normalize_phone s) == 9 && starts_with_9 (normalize_phone s)

abbrev pub is_letter : ℕ → Bool
is_letter c = (leb b'A' c && leb c b'Z') || (leb b'a' c && leb c b'z')

abbrev pub upper_code : ℕ → ℕ
upper_code c = if leb b'a' c && leb c b'z' then c - 32 else c

-- `toUpperCase`
unfoldable pub to_upper : Text → Text
to_upper [] = []
to_upper (c ∷ s) = upper_code c ∷ to_upper s

-- `normalizeUzbekPlate`
unfoldable pub normalize_plate : Text → Text
unfolding trim squeeze to_upper
normalize_plate s = to_upper (squeeze false (trim s))

-- `\d{3}[A-Za-z]{3}$` and `[A-Za-z]\d{1,3}[A-Za-z]{2}$`: characters of a kind, then what follows
abbrev pub some_digits : ℕ → (Text → Bool) → Text → Bool
some_digits zero k s = k s
some_digits (suc n) k [] = false
some_digits (suc n) k (c ∷ s) = is_digit c && some_digits n k s

abbrev pub some_letters : ℕ → Text → Bool
some_letters zero [] = true
some_letters zero (_ ∷ _) = false
some_letters (suc n) [] = false
some_letters (suc n) (c ∷ s) = is_letter c && some_letters n s

-- `0[1-9]|[1-9][0-9]`, and what follows the region
abbrev pub after_region : (Text → Bool) → Text → Bool
after_region k [] = false
after_region k (_ ∷ []) = false
after_region k (c ∷ d ∷ s) = is_digit c && is_digit d && not (c == b'0' && d == b'0') && k s

abbrev pub one_letter : (Text → Bool) → Text → Bool
one_letter k [] = false
one_letter k (c ∷ s) = is_letter c && k s

abbrev pub is_format_zzz_lll : Text → Bool
is_format_zzz_lll = after_region (some_digits 3 (some_letters 3))

abbrev pub is_format_y_zzz_yy : Text → Bool
is_format_y_zzz_yy = after_region (
    one_letter (λ s.
      some_digits 1 (some_letters 2) s
      || some_digits 2 (some_letters 2) s
      || some_digits 3 (some_letters 2) s))

-- `isValidUzbekPlate`
unfoldable pub is_valid_plate : Text → Bool
unfolding without_spaces to_upper trim
is_valid_plate s =
    let plain = without_spaces (to_upper (trim s)) in
    is_format_zzz_lll plain || is_format_y_zzz_yy plain
