-- ===== src/Erp/Panel/Renewed.antt =====
-- A request of the administration whose access token has run out.
use ustabobo_bot.Base.{
  not, ◌&&◌, ℕ, ◌+◌, ◌<◌, ◌≡◌, refl, ◌∙◌, Bool, true, false, Option, none, some, [], ◌∷◌, ◌++◌, inl,
  inr, if◌then◌else◌, arith, Bool-cases,
}
use ustabobo_bot.Base.Table.{lookup}
use ustabobo_bot.Base.Exec.{ok, err, Reason, unauthorized}
use ustabobo_bot.Schema.{World, Text, User, Role, boss, master, driver}
use ustabobo_bot.Text.{codes}
use ustabobo_bot.Auth.{refresh_of, refresh_life, access, access_life}
use ustabobo_bot.Auth.Access.{ReadsBack, refresh_lem}
use ustabobo_bot.Orders.Queries.{is_boss_role}
use ustabobo_bot.Auth.Guards.{
  Gate, admit_request, passport, account_of, run_guards, guard, jwt_auth_guard, roles_guard,
  has_role,
}
use ustabobo_bot.Erp.{Request, Cookies, filled, sends_body, do_refresh, retry, proxy}
use ustabobo_bot.Erp.Proxy.{after_first-expired}
use ustabobo_bot.Erp.Panel.{
  Operation, operate, respond, sent, panel, reply_with, with_header, panel_route,
}

has_role-boss : (r : Role) → is_boss_role r ≡ true → has_role r (boss ∷ []) ≡ true
has_role-boss boss one = refl
has_role-boss master one = absurd (ground arith)
has_role-boss driver one = absurd (ground arith)

module _ (compare : Text → Text → Bool) (g : Gate) (operation_of : Request → Option Operation)
    (rereads : Bool) where
  module _ (id : ℕ) (u : User) (w : World) (reads : ReadsBack g.jwt)
      (there : lookup id w.users ≡ some u) (on : u.is_active ≡ true)
      (is_boss : is_boss_role u.role ≡ true) where
    -- the access token that a refresh makes now
    abbrev pub new_token : Text
    new_token = g.jwt.sign g.now (access id u.login u.role) access_life

    passport_new :
        g.bearer_token (codes "Bearer " ++ new_token) ≡ some new_token
        → passport g (with_header (some new_token)) w
          ≡ ok (some (record { id = id; role = u.role }))
    unfolding passport account_of
    passport_new sent =
        rw (sent, reads g.now g.now access_life (access id u.login u.role) (omega arith), there, on)
          refl

    admit_new :
        g.bearer_token (codes "Bearer " ++ new_token) ≡ some new_token
        → admit_request g panel_route (with_header (some new_token)) w
          ≡ ok (some (record { id = id; role = u.role }))
    unfolding admit_request run_guards guard jwt_auth_guard roles_guard
    admit_new sent = ground (arith, passport_new sent, has_role-boss u.role is_boss)

    respond_new :
        (r : Request) (op : Operation)
        → g.bearer_token (codes "Bearer " ++ new_token) ≡ some new_token
        → operation_of r ≡ some op
        → respond compare g operation_of rereads (some new_token) r w ≡ operate op w
    unfolding respond
    respond_new r op sent known = rw (admit_new sent, known) refl

    do_refresh_new :
        (issued : ℕ)
        → g.now < issued + refresh_life
        → filled (some new_token) ≡ some new_token
        → do_refresh
            (panel compare g operation_of rereads)
            (some (g.jwt.sign issued (refresh_of id) refresh_life))
            w
          ≡ (some (some new_token), w)
    do_refresh_new issued young long =
        rw (refresh_lem compare g.jwt id issued g.now w reads young there on is_boss, long) refl

    retry_new :
        (r : Request) (op : Operation) (c : Cookies)
        → g.bearer_token (codes "Bearer " ++ new_token) ≡ some new_token
        → operation_of r ≡ some op
        → retry (panel compare g operation_of rereads) r (some (some new_token), w) c ≡ (
            if sends_body r && not rereads
            then ((none, c), w)
            else ((some (operate op w).0, record c { token = some new_token }), (operate op w).1))
    retry_new r op c sent known = elim (Bool-cases (sends_body r && not rereads)) [
      | inl throws ↦ rw throws refl
      | inr leaves ↦ rw (leaves, respond_new r op sent known) refl
    ]

    respond_refused :
        (token : Option Text) (r : Request) {e : Reason}
        → admit_request g panel_route (with_header token) w ≡ err (unauthorized e)
        → respond compare g operation_of rereads token r w ≡ (reply_with 401, w)
    unfolding respond
    respond_refused token r refused = rw refused refl

    -- An active boss whose access token the guards refuse with 401, but who has an unexpired refresh
    -- token in his cookie, and a request for an operation on organizations, vehicles or services: the
    -- proxy renews his token, performs the operation, answers with its reply and sets the new token in
    -- the cookie. This is not so for a request with a body, unless the platform's `fetch` sends a body
    -- that has been read before: the proxy then throws, and the stored data and the cookies are as
    -- before. Assumed of the JWT library is that a token is read back before it expires and that the
    -- new one is not empty, and of passport that it reads the token out of the header that the proxy
    -- writes.
    pub proxy-renewed :
        (r : Request) (c : Cookies) (op : Operation) (issued : ℕ) {e : Reason}
        → operation_of r ≡ some op
        → admit_request g panel_route (with_header (filled c.token)) w ≡ err (unauthorized e)
        → filled c.refresh ≡ some (g.jwt.sign issued (refresh_of id) refresh_life)
        → g.now < issued + refresh_life
        → filled (some new_token) ≡ some new_token
        → g.bearer_token (codes "Bearer " ++ new_token) ≡ some new_token
        → proxy (panel compare g operation_of rereads) r c w ≡ (
            if sends_body r && not rereads
            then ((none, c), w)
            else ((some (operate op w).0, record c { token = some new_token }), (operate op w).1))
    unfolding proxy
    proxy-renewed r c op issued known refused kept young long sent =
        after_first-expired (panel compare g operation_of rereads) r
          ((panel compare g operation_of rereads).answer false (filled c.token) r w) c
          (reply_with 401) (g.jwt.sign issued (refresh_of id) refresh_life) new_token w
          (rw (respond_refused (filled c.token) r refused) refl) refl kept
          (rw (respond_refused (filled c.token) r refused) (do_refresh_new issued young long))
        ∙ retry_new r op c sent known
