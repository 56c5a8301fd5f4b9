-- ===== src/Erp.antt =====
-- The session of the administration's front end: erp/middleware.ts, the routes of erp/app/api/auth, and
-- erp/app/api/backend, which hands a request on to the back end. A cookie is `none` where the browser
-- does not send it. The back end behind the HTTP calls is a parameter, with a state of its own.
pub mod Sessions
pub mod Proxy
pub mod Panel
use ustabobo_bot.Base.{
  ℕ, Bool, true, false, not, ◌&&◌, ◌||◌, Option, none, some, List, [], ◌∷◌, ◌++◌, ◌==◌,
  if◌then◌else◌, is_some, length,
}
use ustabobo_bot.Schema.{Text}
use ustabobo_bot.Text.{codes, same_text, strip_prefix}

-- the cookies `erp_token` and `erp_refresh`
pub record Cookies : Type 0 where
  pub token : Option Text
  pub refresh : Option Text

-- what passes a test of the form `if (token)`
abbrev pub filled : Option Text → Option Text
filled none = none
filled (some []) = none
filled (some (c ∷ s)) = some (c ∷ s)

abbrev pub protected_prefixes : List Text
protected_prefixes =
    codes "/"
    ∷ codes "/dashboard"
    ∷ codes "/organizations"
    ∷ codes "/services"
    ∷ codes "/products"
    ∷ codes "/users"
    ∷ codes "/reports"
    ∷ codes "/orders"
    ∷ codes "/vehicle-history"
    ∷ codes "/client-history"
    ∷ []

abbrev pub starts_with : Text → Text → Bool
starts_with path p = is_some (strip_prefix p path)

abbrev pub is_under : Text → Text → Bool
is_under path p =
    not (same_text p (codes "/")) && (same_text path p || starts_with path (p ++ codes "/"))

unfoldable pub is_under_some : Text → List Text → Bool
is_under_some path [] = false
is_under_some path (p ∷ ps) = is_under path p || is_under_some path ps

abbrev pub is_protected : Text → Bool
is_protected path = same_text path (codes "/") || is_under_some path protected_prefixes

abbrev pub is_public : Text → Bool
is_public path = same_text path (codes "/login") || starts_with path (codes "/api/")

pub data Routing : Type 0 where
  next to_login : Routing

unfoldable pub middleware : Cookies → Text → Routing
unfolding same_text strip_prefix is_under_some
middleware c path =
    if is_public path
    then next
    else if is_protected path && not (is_some (filled c.token))
    then to_login
    else next

-- `config.matcher`: the paths at which the middleware runs
abbrev pub image_endings : List Text
image_endings =
    codes ".svg" ∷ codes ".png" ∷ codes ".jpg" ∷ codes ".jpeg" ∷ codes ".gif" ∷ codes ".webp" ∷ []

unfoldable pub is_one_of : Text → List Text → Bool
is_one_of s [] = false
is_one_of s (t ∷ ts) = same_text s t || is_one_of s ts

unfoldable pub ends_as_image : Text → Bool
unfolding is_one_of same_text
ends_as_image [] = false
ends_as_image (c ∷ s) = is_one_of (c ∷ s) image_endings || ends_as_image s

-- `favicon.ico`, where the pattern's dot is any character
abbrev pub icon_rest : Option Text → Bool
icon_rest none = false
icon_rest (some []) = false
icon_rest (some (c ∷ s)) = starts_with s (codes "ico")

abbrev pub is_left_out : Text → Bool
is_left_out rest =
    starts_with rest (codes "_next/static")
    || starts_with rest (codes "_next/image")
    || icon_rest (strip_prefix (codes "favicon") rest)
    || ends_as_image rest

abbrev pub after_slash : Option Text → Bool
after_slash none = false
after_slash (some rest) = not (is_left_out rest)

unfoldable pub is_matched : Text → Bool
unfolding strip_prefix ends_as_image
is_matched path = after_slash (strip_prefix (codes "/") path)

-- what a request for a page comes to
unfoldable pub routed : Cookies → Text → Routing
unfolding middleware is_matched
routed c path = if is_matched path then middleware c path else next

-- `GET /api/auth/status`
abbrev pub status_route : Cookies → ℕ
status_route c = if is_some (filled c.token) then 200 else 401

-- `POST /api/auth/logout`: both cookies are set to expire at once
abbrev pub logout_route : Cookies → Cookies
logout_route c = record { token = none; refresh = none }

-- a request as the proxy hands it on
pub data Method : Type 0 where
  get post patch put delete : Method

pub record Request : Type 0 where
  pub method : Method
  pub path : Text
  pub body : Option Text

pub record Reply : Type 0 where
  pub status : ℕ
  pub text : Text

abbrev pub may_send : Method → Bool
may_send post = true
may_send patch = true
may_send put = true
may_send _ = false

-- the request's body goes along
abbrev pub sends_body : Request → Bool
sends_body r = may_send r.method && is_some r.body

-- what the back end answers to the log-in: nothing at all, an error, or the tokens of its JSON
pub data SignIn : Type 0 where
  lost : SignIn
  refused : ℕ → SignIn
  tokens : Option Text → Option Text → SignIn

-- and to the refresh: the same with one token
pub data Renewal : Type 0 where
  lost : Renewal
  refused : ℕ → Renewal
  renewed : Option Text → Renewal

-- The back end, behind the platform's `fetch`. A call that throws or does not reach it is answered by
-- `none`. The flag of `answer` says that the body, a stream, has been read by a call before.
pub record Backend (S : Type 0) : Type 0 where
  pub sign_in : Text → Text → S → SignIn × S
  pub renew : Text → S → Renewal × S
  pub answer : Bool → Option Text → Request → S → Option Reply × S

module _ {S : Type 0} (backend : Backend S) where
  -- `POST /api/auth/login`: the status and the cookies
  abbrev pub set_both : Option Text → Option Text → Cookies → ℕ × Cookies
  set_both none r c = (500, c)
  set_both (some t) none c = (500, c)
  set_both (some t) (some r) c = (200, record { token = some t; refresh = some r })

  abbrev pub after_sign_in : SignIn × S → Cookies → (ℕ × Cookies) × S
  after_sign_in (lost, s) c = ((500, c), s)
  after_sign_in (refused status, s) c = ((status, c), s)
  after_sign_in (tokens t r, s) c = (set_both (filled t) (filled r) c, s)

  unfoldable pub login_route : Text → Text → Cookies → S → (ℕ × Cookies) × S
  login_route login password c s =
      if length login == 0 || length password == 0
      then ((400, c), s)
      else after_sign_in (backend.sign_in login password s) c

  -- `POST /api/auth/refresh`
  abbrev pub set_token : Option Text → Cookies → ℕ × Cookies
  set_token none c = (500, c)
  set_token (some t) c = (200, record c { token = some t })

  abbrev pub after_renewal : Renewal × S → Cookies → (ℕ × Cookies) × S
  after_renewal (lost, s) c = ((500, c), s)
  after_renewal (refused status, s) c = ((status, c), s)
  after_renewal (renewed t, s) c = (set_token (filled t) c, s)

  abbrev pub renew_by : Option Text → Cookies → S → (ℕ × Cookies) × S
  renew_by none c s = ((401, c), s)
  renew_by (some r) c s = after_renewal (backend.renew r s) c

  unfoldable pub refresh_route : Cookies → S → (ℕ × Cookies) × S
  refresh_route c s = renew_by (filled c.refresh) c s

  -- `doRefresh`; `none` where its call does not reach the back end
  abbrev pub token_of : Renewal × S → Option (Option Text) × S
  token_of (lost, s) = (none, s)
  token_of (refused status, s) = (some none, s)
  token_of (renewed t, s) = (some (filled t), s)

  abbrev pub do_refresh : Option Text → S → Option (Option Text) × S
  do_refresh none s = (some none, s)
  do_refresh (some r) s = token_of (backend.renew r s)

  -- what the browser gets: a reply, and the cookies; `none` where the proxy throws
  abbrev pub Proxied : Type 0
  Proxied = (Option Reply × Cookies) × S

  abbrev pub unauthorized : Reply
  unauthorized = record { status = 401; text = codes "Unauthorized" }

  -- the answer to the request that is sent again, with the new token in the cookie
  abbrev pub after_retry : Text → Option Reply × S → Cookies → Proxied
  after_retry token (none, s) c = ((none, c), s)
  after_retry token (some reply, s) c = ((some reply, record c { token = some token }), s)

  abbrev pub retry : Request → Option (Option Text) × S → Cookies → Proxied
  retry r (none, s) c = ((none, c), s)
  retry r (some none, s) c = ((some unauthorized, c), s)
  retry r (some (some token), s) c =
      after_retry token (backend.answer (sends_body r) (some token) r s) c

  abbrev pub after_first : Request → Option Reply × S → Cookies → Proxied
  after_first r (none, s) c = ((none, c), s)
  after_first r (some reply, s) c =
      if reply.status == 401
      then retry r (do_refresh (filled c.refresh) s) c
      else ((some reply, c), s)

  unfoldable pub proxy : Request → Cookies → S → Proxied
  proxy r c s = after_first r (backend.answer false (filled c.token) r s) c
