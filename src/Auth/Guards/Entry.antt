-- ===== src/Auth/Guards/Entry.antt =====
-- Whom the guards of a route let in.
use ustabobo_bot.Base.{
  ℕ, sym, subst, ◌∙◌, ◌+◌, ◌<◌, ◌≡◌, refl, inl, inr, Bool, true, false, not, ◌||◌, Option, none,
  some, List, [], ◌∷◌, ◌++◌, ◌==◌, if◌then◌else◌, length, arith, Bool-cases, Option-cases,
}
use ustabobo_bot.Base.Table.{lookup, find_first, IsKeyed, find_first-lookup, find_first-test}
use ustabobo_bot.Base.Exec.{
  Result, ok, err, Error, unauthorized, forbidden, bad_token, no_role, user_missing,
}
use ustabobo_bot.Schema.{World, Text, User, Role}
use ustabobo_bot.Orders.Location.{has_tg}
use ustabobo_bot.Auth.{Payload, refresh_of, refresh_life}
use ustabobo_bot.Auth.Access.{ReadsBack}
use ustabobo_bot.Auth.InitData.{ValidatedInitData, validate}
use ustabobo_bot.Auth.Guards.{
  Identity, HttpRequest, Guard, jwt_auth, master_auth, telegram_web_app, telegram_init_data,
  webapp_or_jwt, roles, Route, Gate, Outcome, sub_of, account_of, known, is_filled, passport,
  jwt_auth_guard, entered, named_account, by_init_data, telegram_guard, is_bearer,
  master_auth_guard, webapp_or_jwt_guard, webapp_token, or_telegram, has_role, allowed, roles_guard,
  guard, run_guards, admit_request,
}

-- an active account under this id, with this role
pub record IsAccount (w : World) (i : Identity) : Type 0 where
  pub user : User
  pub stored : lookup i.id w.users ≡ some user
  pub on : user.is_active ≡ true
  pub his_role : user.role ≡ i.role

-- who has passed the guard of the roles
pub record IsEntitled (w : World) (route : Route) (who : Option Identity) : Type 0 where
  pub person : Identity
  pub is_he : who ≡ some person
  pub entitled : has_role person.role route.required_roles ≡ true
  pub account : IsAccount w person

-- nobody, or an account
abbrev pub IsKnown : World → Option Identity → Type 0
IsKnown w none = Unit
IsKnown w (some i) = IsAccount w i

abbrev pub IsSafe : World → Outcome → Type 0
IsSafe w (ok user) = IsKnown w user
IsSafe w (err _) = Unit

account_of-IsKnown : (p : Option Payload) (w : World) → IsKnown w (account_of p w)
unfolding account_of
account_of-IsKnown none w = tt
account_of-IsKnown (some p) w = elim (Option-cases (lookup (sub_of p) w.users)) [
  | inl gone ↦ rw gone tt
  | inr (u, there) ↦ elim (Bool-cases u.is_active) [
    | inr off ↦ rw (there, off) tt
    | inl on ↦ rw (there, on) (record { user = u; stored = there; on = on; his_role = refl })
  ]
]

module _ (w : World) where
  if-IsSafe : (b : Bool) (x y : Outcome) → IsSafe w x → IsSafe w y → IsSafe w (if b then x else y)
  if-IsSafe true x y safe _ = safe
  if-IsSafe false x y _ safe = safe

  known-IsSafe : (e : Error) (i : Option Identity) → IsKnown w i → IsSafe w (known e i)
  known-IsSafe e none h = tt
  known-IsSafe e (some i) h = h

  allowed-IsSafe :
      (required : List Role) (i : Option Identity) → IsKnown w i → IsSafe w (allowed required i)
  allowed-IsSafe required none h = tt
  allowed-IsSafe required (some i) h = if-IsSafe (has_role i.role required) _ _ h tt

  entered-IsSafe :
      (v : ValidatedInitData) (e : Error) (a : Option (ℕ × User))
      → IsKeyed w.users
      → find_first (has_tg v.user) w.users ≡ a
      → IsSafe w (entered e a)
  entered-IsSafe v e none keyed found = tt
  entered-IsSafe v e (some (k, u)) keyed found = record {
    user = u;
    stored = find_first-lookup (has_tg v.user) w.users k u keyed found;
    on = ground (arith, find_first-test (has_tg v.user) w.users k u found);
    his_role = refl;
  }

module _ (g : Gate) (r : HttpRequest) (w : World) (keyed : IsKeyed w.users) where
  passport-IsSafe : IsSafe w (passport g r w)
  unfolding passport
  passport-IsSafe = known-IsSafe w (unauthorized bad_token) _ (account_of-IsKnown _ w)

  named_account-IsSafe :
      (e : Error) (v : Result ValidatedInitData) → IsSafe w (named_account g e v w)
  named_account-IsSafe e (err refused) = tt
  named_account-IsSafe e (ok v) =
      entered-IsSafe w v e (find_first (has_tg v.user) w.users) keyed refl

  by_init_data-IsSafe : (e : Error) (raw : Option Text) → IsSafe w (by_init_data g e raw w)
  by_init_data-IsSafe e none = tt
  by_init_data-IsSafe e (some raw) = named_account-IsSafe e (validate g.host g.now g.max_age raw)

  module _ (user : Option Identity) (h : IsKnown w user) where
    telegram_guard-IsSafe : (e : Error) → IsSafe w (telegram_guard g e r user w)
    unfolding telegram_guard
    telegram_guard-IsSafe e =
        if-IsSafe w (r.is_options || r.is_telegraf) _ _ h
          (if-IsSafe w (is_filled r.init_data) _ _ (by_init_data-IsSafe e r.init_data) tt)

    jwt_auth_guard-IsSafe : (route : Route) → IsSafe w (jwt_auth_guard g route r user w)
    unfolding jwt_auth_guard
    jwt_auth_guard-IsSafe route =
        if-IsSafe w (r.is_options || r.is_telegraf || route.is_public) _ _ h passport-IsSafe

    master_auth_guard-IsSafe : (route : Route) → IsSafe w (master_auth_guard g route r user w)
    unfolding master_auth_guard
    master_auth_guard-IsSafe route = if-IsSafe w (r.is_options || r.is_telegraf) _ _ h (
        if-IsSafe w (not route.is_public) _ _ (jwt_auth_guard-IsSafe route) (
          if-IsSafe w (is_bearer g r.authorization) _ _ (jwt_auth_guard-IsSafe route) (
            if-IsSafe w (is_filled r.init_data) _ _
              (telegram_guard-IsSafe (unauthorized user_missing)) tt)))

    or_telegram-IsSafe : (i : Option Identity) → IsKnown w i → IsSafe w (or_telegram g i r user w)
    or_telegram-IsSafe none k = telegram_guard-IsSafe (unauthorized user_missing)
    or_telegram-IsSafe (some i) k = k

    if-IsKnown : (b : Bool) (i : Option Identity) → IsKnown w i → IsKnown w (if b then i else none)
    if-IsKnown true i k = k
    if-IsKnown false i k = tt

    webapp_or_jwt_guard-IsSafe : IsSafe w (webapp_or_jwt_guard g r user w)
    unfolding webapp_or_jwt_guard
    webapp_or_jwt_guard-IsSafe =
        or_telegram-IsSafe _
          (if-IsKnown (is_filled (webapp_token g r.authorization)) _ (account_of-IsKnown _ w))

    guard-IsSafe : (x : Guard) (route : Route) → IsSafe w (guard g x route r user w)
    unfolding guard roles_guard
    guard-IsSafe jwt_auth route = jwt_auth_guard-IsSafe route
    guard-IsSafe master_auth route = master_auth_guard-IsSafe route
    guard-IsSafe telegram_web_app route = telegram_guard-IsSafe (unauthorized user_missing)
    guard-IsSafe telegram_init_data route = telegram_guard-IsSafe (forbidden user_missing)
    guard-IsSafe webapp_or_jwt route = webapp_or_jwt_guard-IsSafe
    guard-IsSafe roles route =
        if-IsSafe w (length route.required_roles == 0) _ _ h
          (allowed-IsSafe w route.required_roles user h)

  run_guards-IsSafe :
      (xs : List Guard) (route : Route) (o : Outcome)
      → IsSafe w o
      → IsSafe w (run_guards g xs route r w o)
  unfolding run_guards
  run_guards-IsSafe [] route o h = h
  run_guards-IsSafe (x ∷ xs) route (err e) h = tt
  run_guards-IsSafe (x ∷ xs) route (ok user) h =
      run_guards-IsSafe xs route _ (guard-IsSafe user h x route)

  run_guards-append :
      (xs ys : List Guard) (route : Route) (o : Outcome)
      → run_guards g (xs ++ ys) route r w o
        ≡ run_guards g ys route r w (run_guards g xs route r w o)
  unfolding run_guards
  run_guards-append [] ys route o = refl
  run_guards-append (x ∷ xs) [] route (err e) = refl
  run_guards-append (x ∷ xs) (y ∷ ys) route (err e) = refl
  run_guards-append (x ∷ xs) ys route (ok user) =
      run_guards-append xs ys route (guard g x route r user w)

  roles_last :
      (route : Route) (o : Outcome) (who : Option Identity)
      → IsSafe w o
      → (length route.required_roles == 0) ≡ false
      → run_guards g (roles ∷ []) route r w o ≡ ok who
      → IsEntitled w route who
  unfolding run_guards guard roles_guard
  roles_last route (err e) who safe asked passed = absurd (ground arith)
  roles_last route (ok none) who safe asked passed = absurd (ground arith)
  roles_last route (ok (some i)) who safe asked passed = record {
    person = i;
    is_he = ground arith;
    entitled = ground arith;
    account = safe;
  }

  -- On a route that asks for roles and checks them last, whoever is let in is an active account of the
  -- database that has one of these roles, whatever the other guards are and whatever the headers say.
  pub admit_request-IsEntitled :
      (route : Route) (xs : List Guard) (who : Option Identity)
      → route.guards ≡ xs ++ roles ∷ []
      → (length route.required_roles == 0) ≡ false
      → admit_request g route r w ≡ ok who
      → IsEntitled w route who
  unfolding admit_request
  admit_request-IsEntitled route xs who last asked let_in =
      let before = run_guards g (jwt_auth ∷ xs) route r w (ok none) in
      let split : run_guards g (roles ∷ []) route r w before ≡ ok who =
        sym (run_guards-append (jwt_auth ∷ xs) (roles ∷ []) route (ok none))
        ∙ subst (λ gs. run_guards g (jwt_auth ∷ gs) route r w (ok none) ≡ ok who) last let_in in
      roles_last route before who (run_guards-IsSafe (jwt_auth ∷ xs) route (ok none) tt) asked split

-- A public route that is guarded by MasterAuthGuard and RolesGuard refuses every request with a bearer
-- token, a valid one as well, and with good init data beside it too: JwtAuthGuard passes a public
-- route without reading the token, so nobody is signed in when the roles are asked for.
pub admit_request-bearer :
    (g : Gate) (route : Route) (r : HttpRequest) (w : World)
    → route.is_public ≡ true
    → route.guards ≡ master_auth ∷ roles ∷ []
    → (length route.required_roles == 0) ≡ false
    → is_bearer g r.authorization ≡ true
    → admit_request g route r w ≡ err (forbidden no_role)
unfolding admit_request run_guards guard jwt_auth_guard master_auth_guard roles_guard
admit_request-bearer g route r w open_to_all guarded_by asked bearer = ground arith

passport_refresh :
    (g : Gate) (r : HttpRequest) (w : World) (header : Text) (id issued : ℕ) {u : User}
    → ReadsBack g.jwt
    → r.authorization ≡ some header
    → g.bearer_token header ≡ some (g.jwt.sign issued (refresh_of id) refresh_life)
    → g.now < issued + refresh_life
    → lookup id w.users ≡ some u
    → u.is_active ≡ true
    → passport g r w ≡ ok (some (record { id = id; role = u.role }))
unfolding passport account_of
passport_refresh g r w header id issued {u} reads sent token young there on =
    rw (sent, token, reads issued g.now refresh_life (refresh_of id) young, there, on) refl

-- A refresh token is let in as an access token is: on a route that is not public, under JwtAuthGuard
-- and RolesGuard, a request with the refresh token of an active account of a required role passes as
-- this account until the token expires, a week after it was issued.
pub admit_request-refresh_token :
    (g : Gate) (route : Route) (r : HttpRequest) (w : World) (header : Text) (id issued : ℕ)
    {u : User}
    → ReadsBack g.jwt
    → r.is_options ≡ false
    → r.is_telegraf ≡ false
    → route.is_public ≡ false
    → route.guards ≡ jwt_auth ∷ roles ∷ []
    → r.authorization ≡ some header
    → g.bearer_token header ≡ some (g.jwt.sign issued (refresh_of id) refresh_life)
    → g.now < issued + refresh_life
    → lookup id w.users ≡ some u
    → u.is_active ≡ true
    → has_role u.role route.required_roles ≡ true
    → admit_request g route r w ≡ ok (some (record { id = id; role = u.role }))
unfolding admit_request run_guards guard jwt_auth_guard roles_guard
admit_request-refresh_token g route r w header id issued {u} reads not_options not_telegraf closed
      guarded_by sent token young there on entitled =
    ground (arith, passport_refresh g r w header id issued reads sent token young there on)
