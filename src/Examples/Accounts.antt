-- ===== src/Examples/Accounts.antt =====
-- The theorems on accounts, the sign-in and the queries at a small database.
use ustabobo_bot.Base.{ℕ, zero, suc, refl, true, Option, none, some, List, [], ◌∷◌, arith}
use ustabobo_bot.Base.Int.{pos}
use ustabobo_bot.Base.Table.{lookup}
use ustabobo_bot.Schema.{World, Text, User, Role, boss, master, driver}
use ustabobo_bot.Text.{codes, same_text, trim, is_space, trim_start, trim_end, strip_prefix}
use ustabobo_bot.Orders.Draft.{draft_order}
use ustabobo_bot.Examples.Shop.{shop, staff, env_at, request}
use ustabobo_bot.AuthScene.{Wizard}
use ustabobo_bot.Users.{CreateUserDto}
use ustabobo_bot.Users.Calls.{AccountCall, call_all, call_all-AreUnique}
use ustabobo_bot.Users.Unique.{AreUnique}
use ustabobo_bot.Auth.{Jwt, Payload, TokenResponse, refresh_of}
use ustabobo_bot.Auth.Access.{ReadsBack}
use ustabobo_bot.Auth.InitData.{
  Platform, ValidatedInitData, validate, has_char, get, is_signed, check_string_raw,
  check_string_decoded, split_pairs, without_hash, join_lines, other_keys, parse_number,
}
use ustabobo_bot.Auth.InitData.Signed.{IsGenuine, validate-IsGenuine}

-- one boss with a login, a number and a password
abbrev pub owner : User
owner = record (staff boss 0) {
  phone = codes "1";
  login = codes "boss";
  password_hash = codes "secret";
}

abbrev pub office : World
office = record shop { users = (1, owner) ∷ [] }

abbrev hire : CreateUserDto
hire = record {
  fullname = codes "A";
  phone = codes "2";
  login = codes "usta";
  password = codes "123456";
  role = master;
  percent_rate = some 300_000;
  commission = none;
  is_active = none;
}

office-AreUnique : AreUnique office
unfolding lookup
office-AreUnique = record {
  phones = λ j k u v at_j at_k h. ground arith;
  logins = λ j k u v at_j at_k h. ground arith;
}

abbrev calls : List AccountCall
calls = AccountCall.create (env_at 5 7) hire ∷ AccountCall.toggle 7 (some 1) ∷ []

call_all-AreUnique_example : AreUnique (call_all (λ s. s) calls office)
call_all-AreUnique_example = call_all-AreUnique (λ s. s) calls office office-AreUnique

-- tokens that spell their payload and never run out
abbrev pub role_code : Role → ℕ
role_code boss = 0
role_code master = 1
role_code driver = 2

abbrev pub code_role : ℕ → Role
code_role zero = boss
code_role (suc zero) = master
code_role _ = driver

abbrev pub tag : Payload → Text
tag (Payload.access id login role) = 0 ∷ id ∷ role_code role ∷ login
tag (refresh_of id) = 1 ∷ id ∷ []

abbrev pub untag : Text → Option Payload
untag (zero ∷ id ∷ r ∷ login) = some (Payload.access id login (code_role r))
untag (suc _ ∷ id ∷ []) = some (refresh_of id)
untag _ = none

abbrev pub jwt : Jwt
jwt = record { sign = λ now p life. tag p; verify = λ now t. untag t }

pub jwt-ReadsBack : ReadsBack jwt
jwt-ReadsBack issued now life (Payload.access id login boss) young = refl
jwt-ReadsBack issued now life (Payload.access id login master) young = refl
jwt-ReadsBack issued now life (Payload.access id login driver) young = refl
jwt-ReadsBack issued now life (refresh_of id) young = refl

abbrev tokens : TokenResponse
tokens = record {
  access_token = 0 ∷ 1 ∷ 0 ∷ codes "boss";
  refresh_token = 1 ∷ 1 ∷ [];
  expires_in = 3_600;
}

abbrev locked_user : User
locked_user = record (staff master 300_000) {
  login = codes "usta";
  password_hash = codes "p";
  locked_until = some 9_000;
}

abbrev locked_office : World
locked_office = record shop { users = (2, locked_user) ∷ [] }

abbrev at_password : Wizard
at_password = record { login = some (codes "usta"); cursor = 1; is_inside = true }

-- two orders of the same master, and pages of one row
abbrev two_orders : World
two_orders = record shop {
  orders =
      (101, draft_order (env_at 6 101) 2 request)
      ∷ (100, draft_order (env_at 5 100) 2 request)
      ∷ [];
}

-- a platform whose hash of a text is the text, and whose parameters are given
abbrev pub host : Platform
host = record {
  decode = λ s. none;
  query = λ s. (codes "user", codes "u") ∷ (codes "hash", codes "user=u") ∷ [];
  hmac_hex = λ s. s;
  equal_hex = same_text;
  sort_by_key = λ rows. rows;
  sort_keys = λ rows. rows;
  user_id = λ s. some 77;
}

abbrev accepted_data : ValidatedInitData
accepted_data = record { auth_date = pos 0; user = 77; hash = codes "user=u" }

validate-IsGenuine_example : IsGenuine host 1_000 300 (codes "user=u&hash=user=u") accepted_data
unfolding validate trim is_space trim_start trim_end has_char get is_signed check_string_raw
    check_string_decoded split_pairs without_hash join_lines other_keys same_text strip_prefix
    parse_number
validate-IsGenuine_example =
    validate-IsGenuine host 1_000 300 (codes "user=u&hash=user=u") accepted_data refl
