-- ===== src/Auth.antt =====
-- src/auth/auth.service.ts: the sign-in over HTTP, for the administration (login, refresh) and for the
-- web application (webappLogin, getMasterByTgId, getUserByTgId). `bcrypt.compare` and the two calls of
-- the JWT library are parameters.
pub mod InitData
pub mod Access
pub mod Guards
use ustabobo_bot.Base.{
  ℕ, ◌+◌, ◌*◌, Bool, true, false, not, ◌&&◌, Option, none, some, [], ◌∷◌, ◌==◌, leb, if◌then◌else◌,
  holds,
}
use ustabobo_bot.Base.Table.{Table, lookup, find_first}
use ustabobo_bot.Base.Exec.{
  Exec, Result, unauthorized, bad_credentials, boss_only, bad_refresh, user_missing, pure, gets,
  throw_if, or_throw, ◌>>=◌, ◌>>◌,
}
use ustabobo_bot.Schema.{World, Text, User, Role, boss, master}
use ustabobo_bot.AuthScene.{find_active}
use ustabobo_bot.AdminOrders.{is_master_role}
use ustabobo_bot.Orders.Queries.{is_boss_role}
use ustabobo_bot.Orders.Location.{has_tg}

-- what a token says: `JwtPayload`, or `RefreshPayload` with its `type`
pub data Payload : Type 0 where
  access : ℕ → Text → Role → Payload
  refresh_of : ℕ → Payload

pub record TokenResponse : Type 0 where
  pub access_token : Text
  pub refresh_token : Text
  pub expires_in : ℕ

pub record AccessResponse : Type 0 where
  pub access_token : Text
  pub expires_in : ℕ

pub record WebappSession : Type 0 where
  pub token : Text
  pub id : ℕ
  pub fullname : Text
  pub login : Text
  pub role : Role

-- seconds
abbrev pub access_life : ℕ
access_life = 3_600

abbrev pub refresh_life : ℕ
refresh_life = 604_800

abbrev pub webapp_life : ℕ
webapp_life = 8 * 3_600

-- `{ login, is_active: true }`, then the password
module _ (compare : Text → Text → Bool) where
  abbrev pub with_password : Text → Option (ℕ × User) → Option (ℕ × User)
  with_password password none = none
  with_password password (some (id, u)) =
      if compare password u.password_hash then some (id, u) else none

  unfoldable pub validate_user : Text → Text → World → Option (ℕ × User)
  validate_user login password w = with_password password (find_active login w)

-- `sign(payload, { expiresIn })` at a time, and `verify` at a time
pub record Jwt : Type 0 where
  pub sign : ℕ → Payload → ℕ → Text
  pub verify : ℕ → Text → Option Payload

-- the payload of a refresh token
abbrev pub refresh_sub : Option Payload → Option ℕ
refresh_sub (some (refresh_of id)) = some id
refresh_sub _ = none

abbrev pub if_active : Option User → Option User
if_active none = none
if_active (some u) = if u.is_active then some u else none

abbrev pub if_boss : Option User → Option User
if_boss none = none
if_boss (some u) = if is_boss_role u.role then some u else none

module _ (compare : Text → Text → Bool) (jwt : Jwt) where
  unfoldable pub sign_in : ℕ → Text → Text → Exec World TokenResponse
  unfolding validate_user
  sign_in now login password = do
    found ← gets (validate_user compare login password)
    user ← or_throw found (unauthorized bad_credentials)
    throw_if (not (is_boss_role user.1.role)) (unauthorized boss_only)
    pure (record {
      access_token = jwt.sign now (access user.0 user.1.login user.1.role) access_life;
      refresh_token = jwt.sign now (refresh_of user.0) refresh_life;
      expires_in = access_life;
    })

  unfoldable pub refresh : ℕ → Text → Exec World AccessResponse
  refresh now token = do
    id ← or_throw (refresh_sub (jwt.verify now token)) (unauthorized bad_refresh)
    found ← gets (λ w. if_boss (if_active (lookup id w.users)))
    user ← or_throw found (unauthorized user_missing)
    pure (record {
      access_token = jwt.sign now (access id user.login user.role) access_life;
      expires_in = access_life;
    })

  unfoldable pub webapp_login : ℕ → Text → Text → Exec World WebappSession
  unfolding validate_user
  webapp_login now login password = do
    found ← gets (validate_user compare login password)
    user ← or_throw found (unauthorized bad_credentials)
    pure (record {
      token = jwt.sign now (access user.0 user.1.login user.1.role) webapp_life;
      id = user.0;
      fullname = user.1.fullname;
      login = user.1.login;
      role = user.1.role;
    })

-- `getUserByTgId`; every role is one of the three
unfoldable pub get_user_by_tg_id : ℕ → Exec World (ℕ × User)
get_user_by_tg_id tg = do
  found ← gets (λ w. find_first (has_tg tg) w.users)
  or_throw found (unauthorized user_missing)

unfoldable pub get_master_by_tg_id : ℕ → Exec World (ℕ × User)
get_master_by_tg_id tg = do
  found ← gets (λ w. find_first (λ u. has_tg tg u && is_master_role u.role) w.users)
  or_throw found (unauthorized user_missing)
