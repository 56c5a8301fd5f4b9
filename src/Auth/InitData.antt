-- ===== src/Auth/InitData.antt =====
-- src/telegram/telegram-initdata.service.ts: validate, the check of the data with which Telegram opens
-- the web application. What the platform does is a parameter: `decodeURIComponent`, `URLSearchParams`,
-- the keyed hash under the bot's token, the comparison of two hashes, the orders of `sort`, `JSON.parse`.
pub mod Signed
use ustabobo_bot.Base.{
  ℕ, zero, suc, ◌+◌, ◌-◌, ◌*◌, Bool, true, false, not, ◌&&◌, ◌||◌, Option, none, some, List, [],
  ◌∷◌, ◌++◌, map, ltb, leb, ◌==◌, if◌then◌else◌, is_some, or_else, length,
}
use ustabobo_bot.Base.Int.{ℤ, pos, negsuc}
use ustabobo_bot.Base.Exec.{
  Result, ok, err, unauthorized, no_init_data, bad_init_data, bad_signature, stale_init_data,
  no_telegram_user,
}
use ustabobo_bot.Schema.{Text}
use ustabobo_bot.Text.{codes, trim, trim_start, same_text, strip_prefix, is_digit}
use ustabobo_bot.Text.Decimal.{value_from}

pub record Platform : Type 0 where
  pub decode : Text → Option Text
  pub query : Text → List (Text × Text)
  pub hmac_hex : Text → Text
  pub equal_hex : Text → Text → Bool
  pub sort_by_key : List Text → List Text
  pub sort_keys : List Text → List Text
  pub user_id : Text → Option ℕ

pub record ValidatedInitData : Type 0 where
  pub auth_date : ℤ
  pub user : ℕ
  pub hash : Text

-- `CLOCK_SKEW_TOLERANCE_SEC`
abbrev pub clock_skew : ℕ
clock_skew = 120

-- `s.includes(c)`
unfoldable pub has_char : ℕ → Text → Bool
has_char c [] = false
has_char c (d ∷ s) = c == d || has_char c s

abbrev pub put_char : ℕ → List Text → List Text
put_char c [] = (c ∷ []) ∷ []
put_char c (s ∷ rest) = (c ∷ s) ∷ rest

-- `s.split('&')`
unfoldable pub split_pairs : Text → List Text
split_pairs [] = [] ∷ []
split_pairs (c ∷ s) = let rest = split_pairs s in if c == b'&' then [] ∷ rest else put_char c rest

-- `.filter((s) => !s.startsWith('hash='))`
unfoldable pub without_hash : List Text → List Text
unfolding strip_prefix
without_hash [] = []
without_hash (s ∷ rest) =
    let kept = without_hash rest in
    if is_some (strip_prefix (codes "hash=") s) then kept else s ∷ kept

-- `.join('\n')`
unfoldable pub join_lines : List Text → Text
join_lines [] = []
join_lines (s ∷ []) = s
join_lines (s ∷ t ∷ rest) = s ++ 10 ∷ join_lines (t ∷ rest)

-- `params.get(key)`
unfoldable pub get : Text → List (Text × Text) → Option Text
get key [] = none
get key ((k, v) ∷ rest) = if same_text k key then some v else get key rest

-- `keys.filter((k) => k !== 'hash')`
unfoldable pub other_keys : List (Text × Text) → List Text
unfolding same_text
other_keys [] = []
other_keys ((k, _) ∷ rest) =
    let kept = other_keys rest in if same_text k (codes "hash") then kept else k ∷ kept

-- a text that is there and not empty
abbrev pub filled : Option Text → Option Text
filled none = none
filled (some []) = none
filled (some (c ∷ s)) = some (c ∷ s)

unfoldable pub digits_of : Text → Text
digits_of [] = []
digits_of (c ∷ s) = if is_digit c then c ∷ digits_of s else []

abbrev pub number_of : (ℕ → ℤ) → Text → Option ℤ
number_of sign [] = none
number_of sign (c ∷ s) = some (sign (value_from 0 (c ∷ s)))

abbrev pub minus : ℕ → ℤ
minus zero = pos 0
minus (suc n) = negsuc n

abbrev pub signed_number : Text → Option ℤ
signed_number [] = none
signed_number (c ∷ s) =
    if c == b'-'
    then number_of minus (digits_of s)
    else if c == b'+'
    then number_of pos (digits_of s)
    else number_of pos (digits_of (c ∷ s))

-- `parseInt(s, 10)`, `none` for `NaN`
unfoldable pub parse_number : Text → Option ℤ
unfolding trim_start digits_of value_from
parse_number s = signed_number (trim_start s)

-- `authDate ? parseInt(authDate, 10) : 0`; a `NaN` is falsy as 0 is
abbrev pub auth_number : Option Text → ℤ
auth_number none = pos 0
auth_number (some s) = or_else (parse_number s) (pos 0)

-- `maxAgeSec > 0 && authDateNum` and an age above the allowed one
abbrev pub is_stale : ℕ → ℕ → ℤ → Bool
is_stale now max_age (pos zero) = false
is_stale now max_age (pos (suc n)) = ltb 0 max_age && ltb (suc n + max_age + clock_skew) now
is_stale now max_age (negsuc n) = ltb 0 max_age && ltb (max_age + clock_skew) (now + suc n)

module _ (host : Platform) where
  abbrev pub unwrapped : Text → Text
  unwrapped raw =
      if not (has_char b'&' raw) && has_char b'%' raw then or_else (host.decode raw) raw else raw

  abbrev pub pair_line : List (Text × Text) → Text → Text
  pair_line params key = key ++ b'=' ∷ or_else (get key params) (codes "null")

  unfoldable pub check_string_raw : Text → Text
  unfolding split_pairs without_hash join_lines
  check_string_raw raw = join_lines (host.sort_by_key (without_hash (split_pairs raw)))

  unfoldable pub check_string_decoded : List (Text × Text) → Text
  unfolding other_keys get join_lines
  check_string_decoded params =
      join_lines (map (pair_line params) (host.sort_keys (other_keys params)))

  -- `tryValidate`
  unfoldable pub is_signed : Text → Text → Bool
  is_signed hash check =
      let computed = host.hmac_hex check in
      length computed == length hash && host.equal_hex computed hash

  abbrev pub telegram_user : List (Text × Text) → Option ℕ
  telegram_user params = elim (filled (get (codes "user") params)) [
    | none ↦ none
    | some text ↦ host.user_id text
  ]

  abbrev pub with_user : Option ℕ → ℤ → Text → Result ValidatedInitData
  with_user none date hash = err (unauthorized no_telegram_user)
  with_user (some zero) date hash = err (unauthorized no_telegram_user)
  with_user (some (suc id)) date hash = ok (record { auth_date = date; user = suc id; hash = hash })

  abbrev pub checked : ℕ → ℕ → Text → List (Text × Text) → Text → Result ValidatedInitData
  checked now max_age raw params hash =
      let date = auth_number (get (codes "auth_date") params) in
      if not (is_signed hash (check_string_raw raw))
        && not (is_signed hash (check_string_decoded params))
      then err (unauthorized bad_signature)
      else if is_stale now max_age date
      then err (unauthorized stale_init_data)
      else with_user (telegram_user params) date hash

  abbrev pub with_hash : ℕ → ℕ → Text → List (Text × Text) → Option Text → Result ValidatedInitData
  with_hash now max_age raw params none = err (unauthorized bad_init_data)
  with_hash now max_age raw params (some hash) = checked now max_age raw params hash

  abbrev pub parsed : ℕ → ℕ → Text → Result ValidatedInitData
  parsed now max_age raw =
      let params = host.query raw in
      with_hash now max_age raw params (filled (get (codes "hash") params))

  -- the times are in seconds
  unfoldable pub validate : ℕ → ℕ → Text → Result ValidatedInitData
  unfolding trim has_char is_signed check_string_raw check_string_decoded get parse_number
  validate now max_age init_data =
      let raw = trim init_data in
      if length raw == 0
      then err (unauthorized no_init_data)
      else parsed now max_age (unwrapped raw)
