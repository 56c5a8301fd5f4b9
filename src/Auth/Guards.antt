-- ===== src/Auth/Guards.antt =====
-- The guards of the HTTP routes (src/common/guards, src/auth/guards, src/auth/strategies) and the order
-- in which a route runs them: first the one that src/app.module.ts sets for every route, then its own.
-- The rate limit is not modelled. Passport's extraction of the token is a parameter.
pub mod Entry
use ustabobo_bot.Base.{
  ℕ, zero, suc, Bool, true, false, not, ◌||◌, Option, none, some, List, [], ◌∷◌, ◌==◌, is_some,
  if◌then◌else◌, length,
}
use ustabobo_bot.Base.Table.{Table, lookup, find_first}
use ustabobo_bot.Base.Exec.{
  Result, ok, err, Error, unauthorized, forbidden, bad_token, no_role, no_init_data, user_missing,
}
use ustabobo_bot.Schema.{World, Text, User, Role}
use ustabobo_bot.Text.{codes, trim, strip_prefix, to_lower}
use ustabobo_bot.Orders.Location.{has_tg}
use ustabobo_bot.Bot.Actions.{same_role}
use ustabobo_bot.Auth.{Jwt, Payload, access, refresh_of, if_active}
use ustabobo_bot.Auth.InitData.{Platform, ValidatedInitData, validate}

-- `request.user`
pub record Identity : Type 0 where
  pub id : ℕ
  pub role : Role

pub record HttpRequest : Type 0 where
  pub is_options : Bool
  pub is_telegraf : Bool
  pub authorization : Option Text
  pub init_data : Option Text

pub data Guard : Type 0 where
  jwt_auth master_auth telegram_web_app telegram_init_data webapp_or_jwt roles : Guard

-- `@Public()`, `@Roles(…)` and `@UseGuards(…)`
pub record Route : Type 0 where
  pub is_public : Bool
  pub required_roles : List Role
  pub guards : List Guard

-- what the guards use: the clock in seconds, the libraries, the age limit of the init data
pub record Gate : Type 0 where
  pub now : ℕ
  pub jwt : Jwt
  pub bearer_token : Text → Option Text
  pub host : Platform
  pub max_age : ℕ

abbrev pub Outcome : Type 0
Outcome = Result (Option Identity)

abbrev pub identity : ℕ × User → Identity
identity (id, u) = record { id = id; role = u.role }

-- `payload.sub`, which a refresh token has too
abbrev pub sub_of : Payload → ℕ
sub_of (access id _ _) = id
sub_of (refresh_of id) = id

abbrev pub as_identity : ℕ → Option User → Option Identity
as_identity id none = none
as_identity id (some u) = some (identity (id, u))

-- the account behind a token: `findUnique({ where: { id: payload.sub, is_active: true } })`
unfoldable pub account_of : Option Payload → World → Option Identity
account_of none w = none
account_of (some p) w = as_identity (sub_of p) (if_active (lookup (sub_of p) w.users))

abbrev pub known : Error → Option Identity → Outcome
known e none = err e
known e (some i) = ok (some i)

-- `!!raw?.trim()`
abbrev pub is_filled : Option Text → Bool
is_filled none = false
is_filled (some s) = not (length (trim s) == 0)

abbrev pub entered : Error → Option (ℕ × User) → Outcome
entered e none = err e
entered e (some account) = ok (some (identity account))

module _ (g : Gate) where
  abbrev pub verified : Option Text → Option Payload
  verified none = none
  verified (some token) = g.jwt.verify g.now token

  abbrev pub extracted : Option Text → Option Text
  extracted none = none
  extracted (some header) = g.bearer_token header

  -- passport with JwtStrategy
  unfoldable pub passport : HttpRequest → World → Outcome
  unfolding account_of
  passport r w =
      known (unauthorized bad_token) (account_of (verified (extracted r.authorization)) w)

  -- JwtAuthGuard
  unfoldable pub jwt_auth_guard : Route → HttpRequest → Option Identity → World → Outcome
  unfolding passport
  jwt_auth_guard route r user w =
      if r.is_options || r.is_telegraf || route.is_public then ok user else passport r w

  -- `getUserByTgId` of the user that the init data names
  abbrev pub named_account : Error → Result ValidatedInitData → World → Outcome
  named_account e (err refused) w = err refused
  named_account e (ok v) w = entered e (find_first (has_tg v.user) w.users)

  abbrev pub by_init_data : Error → Option Text → World → Outcome
  by_init_data e none w = err (unauthorized no_init_data)
  by_init_data e (some raw) w = named_account e (validate g.host g.now g.max_age raw) w

  -- TelegramWebAppGuard, and TelegramInitDataGuard, which answers 403 to an unknown user
  unfoldable pub telegram_guard : Error → HttpRequest → Option Identity → World → Outcome
  unfolding validate
  telegram_guard e r user w =
      if r.is_options || r.is_telegraf
      then ok user
      else if is_filled r.init_data
      then by_init_data e r.init_data w
      else err (unauthorized no_init_data)

  abbrev pub is_bearer : Option Text → Bool
  is_bearer none = false
  is_bearer (some header) = is_some (strip_prefix (codes "Bearer ") header)

  -- MasterAuthGuard
  unfoldable pub master_auth_guard : Route → HttpRequest → Option Identity → World → Outcome
  unfolding jwt_auth_guard telegram_guard
  master_auth_guard route r user w =
      if r.is_options || r.is_telegraf
      then ok user
      else if not route.is_public
      then jwt_auth_guard route r user w
      else if is_bearer r.authorization
      then jwt_auth_guard route r user w
      else if is_filled r.init_data
      then telegram_guard (unauthorized user_missing) r user w
      else err (unauthorized no_init_data)

  -- `authHeader.toLowerCase().startsWith('bearer ') ? authHeader.slice(7).trim() : null`
  abbrev pub dropped : ℕ → Text → Text
  dropped zero s = s
  dropped (suc n) [] = []
  dropped (suc n) (c ∷ s) = dropped n s

  abbrev pub webapp_token : Option Text → Option Text
  webapp_token none = none
  webapp_token (some header) =
      if is_some (strip_prefix (codes "bearer ") (to_lower header))
      then some (trim (dropped 7 header))
      else none

  abbrev pub or_telegram : Option Identity → HttpRequest → Option Identity → World → Outcome
  or_telegram (some i) r user w = ok (some i)
  or_telegram none r user w = telegram_guard (unauthorized user_missing) r user w

  -- WebAppOrJwtGuard; an empty token goes on to the init data as a wrong one does
  unfoldable pub webapp_or_jwt_guard : HttpRequest → Option Identity → World → Outcome
  unfolding account_of telegram_guard to_lower
  webapp_or_jwt_guard r user w =
      let token = webapp_token r.authorization in
      or_telegram (if is_filled token then account_of (verified token) w else none) r user w

abbrev pub has_role : Role → List Role → Bool
has_role r [] = false
has_role r (s ∷ rest) = same_role s r || has_role r rest

-- RolesGuard
abbrev pub allowed : List Role → Option Identity → Outcome
allowed required none = err (forbidden no_role)
allowed required (some i) =
    if has_role i.role required then ok (some i) else err (forbidden no_role)

unfoldable pub roles_guard : Route → Option Identity → Outcome
roles_guard route user =
    if length route.required_roles == 0 then ok user else allowed route.required_roles user

unfoldable pub guard : Gate → Guard → Route → HttpRequest → Option Identity → World → Outcome
guard g jwt_auth route r user w = jwt_auth_guard g route r user w
guard g master_auth route r user w = master_auth_guard g route r user w
guard g telegram_web_app route r user w = telegram_guard g (unauthorized user_missing) r user w
guard g telegram_init_data route r user w = telegram_guard g (forbidden user_missing) r user w
guard g webapp_or_jwt route r user w = webapp_or_jwt_guard g r user w
guard g roles route r user w = roles_guard route user

-- one guard after the other, as long as they let the request through
unfoldable pub run_guards : Gate → List Guard → Route → HttpRequest → World → Outcome → Outcome
run_guards g [] route r w user = user
run_guards g (x ∷ rest) route r w (err e) = err e
run_guards g (x ∷ rest) route r w (ok user) = run_guards g rest route r w (guard g x route r user w)

-- who a request comes from, or why it is refused
unfoldable pub admit_request : Gate → Route → HttpRequest → World → Outcome
unfolding run_guards
admit_request g route r w = run_guards g (jwt_auth ∷ route.guards) route r w (ok none)
