-- ===== src/Erp/Sessions.antt =====
-- The cookies over every sequence of what a browser does, and which pages they open.
use ustabobo_bot.Base.{
  ◌≡◌, refl, true, false, Option, none, some, List, [], ◌∷◌, ◌==◌, inl, inr, Bool-cases, sym, subst,
}
use ustabobo_bot.Schema.{Text}
use ustabobo_bot.Erp.{
  Cookies, Request, Reply, Backend, proxy, login_route, refresh_route, logout_route, to_login,
  middleware, routed, is_matched, is_public, is_protected, after_first,
}

-- `expire` is the browser's: the cookie of the token lives an hour, that of the refresh a week
pub data Event : Type 0 where
  log_in : Text → Text → Event
  renew log_out : Event
  call : Request → Event
  expire_token expire_refresh : Event

module _ {S : Type 0} (backend : Backend S) where
  unfoldable pub step : Event → Cookies × S → Cookies × S
  step (log_in login password) (c, s) =
      ((login_route backend login password c s).0.1, (login_route backend login password c s).1)
  step renew (c, s) = ((refresh_route backend c s).0.1, (refresh_route backend c s).1)
  step log_out (c, s) = (logout_route c, s)
  step (call r) (c, s) = ((proxy backend r c s).0.1, (proxy backend r c s).1)
  step expire_token (c, s) = (record c { token = none }, s)
  step expire_refresh (c, s) = (record c { refresh = none }, s)

  unfoldable pub steps : List Event → Cookies × S → Cookies × S
  steps [] x = x
  steps (e ∷ es) x = steps es (step e x)

  -- no log-in is among the events
  abbrev pub IsQuiet : List Event → Type 0
  IsQuiet [] = Unit
  IsQuiet (log_in _ _ ∷ es) = ⊥
  IsQuiet (_ ∷ es) = IsQuiet es

  abbrev pub signed_out : Cookies
  signed_out = record { token = none; refresh = none }

  after_first-signed_out :
      (r : Request) (x : Option Reply × S) → (after_first backend r x signed_out).0.1 ≡ signed_out
  after_first-signed_out r (none, s) = refl
  after_first-signed_out r (some reply, s) = elim (Bool-cases (reply.status == 401)) [
    | inl expired ↦ rw expired refl
    | inr passed ↦ rw passed refl
  ]

  steps-signed_out :
      (es : List Event) (s : S) → IsQuiet es → (steps es (signed_out, s)).0 ≡ signed_out
  unfolding steps step refresh_route proxy
  steps-signed_out [] s h = refl
  steps-signed_out (log_in login password ∷ es) s h = absurd h
  steps-signed_out (renew ∷ es) s h = steps-signed_out es s h
  steps-signed_out (log_out ∷ es) s h = steps-signed_out es s h
  steps-signed_out (call r ∷ es) s h =
      let sent = backend.answer false none r s in
      subst (λ k. (steps es (k, (after_first backend r sent signed_out).1)).0 ≡ signed_out)
        (sym (after_first-signed_out r sent))
        (steps-signed_out es (after_first backend r sent signed_out).1 h)
  steps-signed_out (expire_token ∷ es) s h = steps-signed_out es s h
  steps-signed_out (expire_refresh ∷ es) s h = steps-signed_out es s h

  -- After a log-out, whatever the browser does short of a log-in, and whatever the back end answers,
  -- the pages behind the session lead to the log-in. Paths that the pattern of the middleware leaves
  -- out, such as those that end like the name of a picture, are not among them.
  pub log_out-routed :
      (es : List Event) (c : Cookies) (s : S) (path : Text)
      → IsQuiet es
      → is_matched path ≡ true
      → is_public path ≡ false
      → is_protected path ≡ true
      → routed (steps (log_out ∷ es) (c, s)).0 path ≡ to_login
  unfolding steps step routed middleware
  log_out-routed es c s path quiet matched private guarded =
      rw (matched, steps-signed_out es s quiet, private, guarded) refl
