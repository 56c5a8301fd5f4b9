-- ===== src/Examples/Entry.antt =====
-- The theorems on the guards at two routes and the request of a boss.
use ustabobo_bot.Base.{◌≡◌, refl, true, false, none, some, [], ◌∷◌, ◌++◌, arith}
use ustabobo_bot.Base.Table.{lookup}
use ustabobo_bot.Base.Exec.{ok, err, forbidden, no_role}
use ustabobo_bot.Schema.{boss, master, driver}
use ustabobo_bot.Text.{codes, strip_prefix}
use ustabobo_bot.Auth.Guards.{
  Identity, HttpRequest, Route, Gate, jwt_auth, master_auth, roles, admit_request, run_guards,
  guard, jwt_auth_guard, passport, account_of, roles_guard,
}
use ustabobo_bot.Auth.Guards.Entry.{
  IsEntitled, admit_request-IsEntitled, admit_request-bearer, admit_request-refresh_token,
}
use ustabobo_bot.Examples.Accounts.{office, jwt, jwt-ReadsBack, host}

abbrev pub gate : Gate
gate = record {
  now = 1_000;
  jwt = jwt;
  bearer_token = λ h. strip_prefix (codes "Bearer ") h;
  host = host;
  max_age = 300;
}

-- a route of the orders for the web application, and one of the administration
abbrev orders_route : Route
orders_route = record {
  is_public = true;
  required_roles = master ∷ boss ∷ driver ∷ [];
  guards = master_auth ∷ roles ∷ [];
}

abbrev admin_route : Route
admin_route = record {
  is_public = false;
  required_roles = boss ∷ [];
  guards = jwt_auth ∷ roles ∷ [];
}

-- the boss with his refresh token
abbrev with_token : HttpRequest
with_token = record {
  is_options = false;
  is_telegraf = false;
  authorization = some (codes "Bearer " ++ 1 ∷ 1 ∷ []);
  init_data = none;
}

abbrev the_boss : Identity
the_boss = record { id = 1; role = boss }

admit_request-IsEntitled_example : IsEntitled office admin_route (some the_boss)
unfolding lookup admit_request run_guards guard jwt_auth_guard passport account_of roles_guard
    strip_prefix
admit_request-IsEntitled_example =
    admit_request-IsEntitled gate with_token office (refl, tt) admin_route (jwt_auth ∷ [])
      (some the_boss) refl refl refl

admit_request-bearer_example :
    admit_request gate orders_route with_token office ≡ err (forbidden no_role)
unfolding strip_prefix
admit_request-bearer_example =
    admit_request-bearer gate orders_route with_token office refl refl refl refl

admit_request-refresh_token_example :
    admit_request gate admin_route with_token office ≡ ok (some the_boss)
unfolding strip_prefix lookup
admit_request-refresh_token_example =
    admit_request-refresh_token gate admin_route with_token office (codes "Bearer " ++ 1 ∷ 1 ∷ []) 1
      500 jwt-ReadsBack refl refl refl refl refl refl (ground arith) refl refl refl
