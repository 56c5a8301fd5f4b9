-- ===== src/Auth/Access.antt =====
-- Who signs in over HTTP, what a refresh token is worth, and that the bot's lock does not count there.
use ustabobo_bot.Base.{
  ℕ, ◌+◌, ◌<◌, ◌≡◌, refl, inl, inr, Bool, true, false, Option, none, some, [], ◌∷◌, ◌==◌, length,
  arith, Option-cases,
}
use ustabobo_bot.Base.Table.{lookup}
use ustabobo_bot.Base.Exec.{ok, err, unauthorized, user_missing}
use ustabobo_bot.Schema.{World, Text, User}
use ustabobo_bot.Text.{trim}
use ustabobo_bot.AuthScene.{
  Wizard, find_active, is_locked, minutes_left, still_locked, ask_login, step_password,
}
use ustabobo_bot.Orders.Queries.{is_boss_role}
use ustabobo_bot.Auth.{
  Jwt, Payload, access, refresh_of, TokenResponse, WebappSession, refresh_life, access_life,
  webapp_life, validate_user, sign_in, refresh, webapp_login, if_active, if_boss,
}

-- what the JWT library promises: a token is read back before it expires
abbrev pub ReadsBack : Jwt → Type 0
ReadsBack jwt =
    (issued now life : ℕ) (p : Payload)
    → now < issued + life
    → jwt.verify now (jwt.sign issued p life) ≡ some p

module _ (compare : Text → Text → Bool) (jwt : Jwt) where
  -- who a pair of tokens is for
  pub record IsBossLogin (login password : Text) (w : World) (t : TokenResponse) (now : ℕ)
      : Type 0 where
    pub id : ℕ
    pub user : User
    pub found : find_active login w ≡ some (id, user)
    pub matches : compare password user.password_hash ≡ true
    pub is_boss : is_boss_role user.role ≡ true
    pub refreshes : t.refresh_token ≡ jwt.sign now (refresh_of id) refresh_life

  pub sign_in-IsBossLogin :
      (now : ℕ) (login password : Text) (w : World) (t : TokenResponse)
      → (sign_in compare jwt now login password w).0 ≡ ok t
      → IsBossLogin login password w t now
  unfolding sign_in validate_user
  sign_in-IsBossLogin now login password w t h = elim (Option-cases (find_active login w)) [
    | inl unknown ↦ absurd (ground arith)
    | inr ((id, u), found) ↦ record {
      id = id;
      user = u;
      found = found;
      matches = ground arith;
      is_boss = ground arith;
      refreshes = ground arith;
    }
  ]

  pub refresh_lem :
      (id issued now : ℕ) (w : World)
      → ReadsBack jwt
      → now < issued + refresh_life
      → {u : User} → lookup id w.users ≡ some u
      → u.is_active ≡ true
      → is_boss_role u.role ≡ true
      → refresh compare jwt now (jwt.sign issued (refresh_of id) refresh_life) w ≡ (
        ok (record {
          access_token = jwt.sign now (access id u.login u.role) access_life;
          expires_in = access_life;
        }),
        w,
      )
  unfolding refresh
  refresh_lem id issued now w reads young {u} there on is_one =
      rw (reads issued now refresh_life (refresh_of id) young, there, on, is_one) refl

  revoked_lem :
      (id issued now : ℕ) (w : World)
      → ReadsBack jwt
      → now < issued + refresh_life
      → if_boss (if_active (lookup id w.users)) ≡ none
      → refresh compare jwt now (jwt.sign issued (refresh_of id) refresh_life) w
        ≡ (err (unauthorized user_missing), w)
  unfolding refresh
  revoked_lem id issued now w reads young out =
      rw (reads issued now refresh_life (refresh_of id) young, out) refl

  -- what a refresh token of an account is worth in a later state
  pub record Refreshes (id now : ℕ) (token : Text) (w : World) : Type 0 where
    pub renewed :
        (u : User)
        → lookup id w.users ≡ some u
        → u.is_active ≡ true
        → is_boss_role u.role ≡ true
        → refresh compare jwt now token w ≡ (
          ok (record {
            access_token = jwt.sign now (access id u.login u.role) access_life;
            expires_in = access_life;
          }),
          w,
        )
    pub revoked :
        if_boss (if_active (lookup id w.users)) ≡ none
        → refresh compare jwt now token w ≡ (err (unauthorized user_missing), w)

  -- A log-in to the administration is one of an active boss with his password. Where the JWT library
  -- reads a token back before it expires, his refresh token renews the access for its week in every
  -- later state in which he is an active boss, under his login and role of then, and is refused as
  -- soon as he is not.
  pub refresh-sign_in :
      (issued now : ℕ) (login password : Text) (w w' : World) (t : TokenResponse)
      → ReadsBack jwt
      → (sign_in compare jwt issued login password w).0 ≡ ok t
      → now < issued + refresh_life
      → (b : IsBossLogin login password w t issued) × Refreshes b.id now t.refresh_token w'
  refresh-sign_in issued now login password w w' t reads signed young =
      let b = sign_in-IsBossLogin issued login password w t signed in
      (
        b,
        record {
          renewed = λ u there on is_one.
              rw b.refreshes (refresh_lem b.id issued now w' reads young there on is_one);
          revoked = λ out. rw b.refreshes (revoked_lem b.id issued now w' reads young out);
        },
      )

  -- An account that the bot has locked after wrong passwords still signs in to the web application with
  -- its password, at the very time at which the bot's wizard refuses the same login and password.
  pub webapp_login-locked :
      (now : ℕ) (chat : Option ℕ) (text login : Text) (z : Wizard) (w : World) (id : ℕ) (u : User)
      → find_active login w ≡ some (id, u)
      → compare (trim text) u.password_hash ≡ true
      → is_locked now u.locked_until ≡ true
      → z.login ≡ some login
      → (length (trim text) == 0) ≡ false
      → (s : WebappSession) × ((step_password compare now chat text z w).replies
          ≡ still_locked (minutes_left now u.locked_until) ∷ ask_login ∷ [])
        × (webapp_login compare jwt now login (trim text) w ≡ (ok s, w))
        × (s.id ≡ id)
        × (s.role ≡ u.role)
  unfolding step_password webapp_login validate_user
  webapp_login-locked now chat text login z w id u found right locked his full = (
    record {
      token = jwt.sign now (access id u.login u.role) webapp_life;
      id = id;
      fullname = u.fullname;
      login = u.login;
      role = u.role;
    },
    rw (full, his, found, locked) refl,
    rw (found, right) refl,
    refl,
    refl,
  )
