-- ===== src/Users.antt =====
-- The accounts: createUser, updateUser and toggleUserActive of src/admin/admin.service.ts, and
-- UsersService.create of src/users/users.service.ts. `bcrypt.hash` is a parameter.
pub mod Unique
pub mod Calls
use ustabobo_bot.Base.{
  ℕ, Bool, true, false, not, ◌&&◌, ◌||◌, Option, none, some, List, [], ◌∷◌, leb, ◌==◌,
  if◌then◌else◌, is_some, or_else, holds, length,
}
use ustabobo_bot.Base.Int.{pos}
use ustabobo_bot.Base.Table.{Table, lookup, modify, find_first}
use ustabobo_bot.Base.Exec.{
  Exec, Result, ok, err, bad_request, not_found, conflict, unique_violation, empty_name,
  user_missing, taken_phone, taken_login, staff_only, own_account, boss_account, pure, gets, put,
  throw, or_throw, throw_if, ◌>>=◌, ◌>>◌,
}
use ustabobo_bot.Schema.{World, Env, Text, User, Role, boss, master, driver}
use ustabobo_bot.Text.{trim, same_text}

pub record CreateUserDto : Type 0 where
  pub fullname : Text
  pub phone : Text
  pub login : Text
  pub password : Text
  pub role : Role
  pub percent_rate : Option ℕ
  pub commission : Option ℕ
  pub is_active : Option Bool

pub record UpdateUserDto : Type 0 where
  pub fullname : Option Text
  pub phone : Option Text
  pub login : Option Text
  pub password : Option Text
  pub role : Option Role
  pub percent_rate : Option ℕ
  pub commission : Option ℕ
  pub is_active : Option Bool

abbrev pub has_phone : Text → User → Bool
has_phone phone u = same_text phone u.phone

abbrev pub has_login : Text → User → Bool
has_login login u = same_text login u.login

-- `findUnique({ where: { phone } })`, as a test
abbrev pub is_taken : (User → Bool) → World → Bool
is_taken p w = is_some (find_first p w.users)

-- `a ?? b`
abbrev pub first_of : Option ℕ → Option ℕ → Option ℕ
first_of none b = b
first_of (some a) _ = some a

abbrev pub new_user : Text → CreateUserDto → Option ℕ → Text → User
new_user fullname dto rate hash = record {
  fullname = fullname;
  phone = dto.phone;
  login = dto.login;
  password_hash = hash;
  role = dto.role;
  tg_id = none;
  percent_rate = or_else rate 0;
  balance = pos 0;
  is_active = or_else dto.is_active true;
  is_authenticated = false;
  last_authenticated_at = none;
  locked_until = none;
  pin_fail_count = 0;
}

-- `user.create`, after the checks of the unique columns
abbrev pub with_user : ℕ → User → World → World
with_user k u w = record w { users = (k, u) ∷ w.users }

-- is a column's value held by another row
unfoldable pub held_elsewhere : (User → Bool) → ℕ → Table User → Bool
held_elsewhere p id [] = false
held_elsewhere p id ((j, u) ∷ t) = (not (j == id) && p u) || held_elsewhere p id t

abbrev pub is_staff : Role → Bool
is_staff boss = false
is_staff _ = true

-- `dto.password && dto.password.length >= 6`
abbrev pub new_hash : (Text → Text) → Option Text → Text → Text
new_hash hash none old = old
new_hash hash (some password) old = if leb 6 (length password) then hash password else old

abbrev pub edited_user : (Text → Text) → UpdateUserDto → User → User
edited_user hash dto u = record u {
  fullname = or_else dto.fullname u.fullname;
  phone = or_else dto.phone u.phone;
  login = or_else dto.login u.login;
  password_hash = new_hash hash dto.password u.password_hash;
  role = or_else dto.role u.role;
  percent_rate = or_else (first_of dto.percent_rate dto.commission) u.percent_rate;
  is_active = or_else dto.is_active u.is_active;
}

-- `user.update` with the unique columns `phone` and `login`
abbrev pub save_user : ℕ → User → Exec World User
save_user id u w =
    if held_elsewhere (has_phone u.phone) id w.users
      || held_elsewhere (has_login u.login) id w.users
    then (err unique_violation, w)
    else (ok u, record w { users = modify id (λ _. u) w.users })

module _ (hash : Text → Text) where
  unfoldable pub create_user : Env → CreateUserDto → Exec World User
  unfolding trim same_text
  create_user env dto = do
    let fullname = trim dto.fullname
    throw_if (length fullname == 0) (bad_request empty_name)
    phone_taken ← gets (is_taken (has_phone dto.phone))
    throw_if phone_taken (conflict taken_phone)
    login_taken ← gets (is_taken (has_login dto.login))
    throw_if login_taken (conflict taken_login)
    let user = new_user fullname dto (first_of dto.percent_rate dto.commission) (hash dto.password)
    put (with_user (env.uuid 0) user)
    pure user

  -- `UsersService.create`
  unfoldable pub create_staff : Env → CreateUserDto → Exec World User
  unfolding same_text
  create_staff env dto = do
    login_taken ← gets (is_taken (has_login dto.login))
    throw_if login_taken (conflict taken_login)
    phone_taken ← gets (is_taken (has_phone dto.phone))
    throw_if phone_taken (conflict taken_phone)
    throw_if (not (is_staff dto.role)) (conflict staff_only)
    let user = new_user dto.fullname dto dto.percent_rate (hash dto.password)
    put (with_user (env.uuid 0) user)
    pure user

  unfoldable pub admin_update_user : ℕ → UpdateUserDto → Exec World User
  unfolding same_text held_elsewhere
  admin_update_user id dto = do
    found ← gets (λ w. lookup id w.users)
    user ← or_throw found (not_found user_missing)
    save_user id (edited_user hash dto user)

abbrev pub is_boss_account : Role → Bool
is_boss_account boss = true
is_boss_account _ = false

unfoldable pub toggle_user_active : ℕ → Option ℕ → Exec World User
toggle_user_active id requester = do
  found ← gets (λ w. lookup id w.users)
  user ← or_throw found (not_found user_missing)
  throw_if (holds id requester) (bad_request own_account)
  throw_if (is_boss_account user.role) (bad_request boss_account)
  put (λ w. record w {
    users = modify id (λ u. record u { is_active = not user.is_active }) w.users;
  })
  pure (record user { is_active = not user.is_active })
