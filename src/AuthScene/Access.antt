-- ===== src/AuthScene/Access.antt =====
-- Who gets in at step 1, and what the failure counter says about the lock.
use ustabobo_bot.Base.{
  ℕ, suc, ◌≡◌, refl, inl, inr, Bool, true, false, Option, none, some, [], ◌∷◌, leb, ◌==◌, is_some,
  length, arith, Bool-cases, Option-cases,
}
use ustabobo_bot.Base.Table.{lookup, find_first}
use ustabobo_bot.Schema.{World, Text, User, Role}
use ustabobo_bot.Base.Table.{IsKeyed, AllRows, AllRows-modify, find_first-lookup}
use ustabobo_bot.Text.{trim}
use ustabobo_bot.AuthScene.{
  Wizard, welcome, has_login, find_active, is_locked, lock_until, failed, logged_in, held_by_other,
  step_password, password_max_fail, reject, admit,
}

-- what a user must show: an active account under the session's login, not locked, and its password
pub record Entitled (compare : Text → Text → Bool) (now : ℕ) (text : Text) (z : Wizard) (w : World)
    (r : Role) : Type 0 where
  pub login : Text
  pub id : ℕ
  pub user : User
  pub session : z.login ≡ some login
  pub found : find_active login w ≡ some (id, user)
  pub unlocked : is_locked now user.locked_until ≡ false
  pub matches : compare (trim text) user.password_hash ≡ true
  pub his_role : user.role ≡ r

-- the lock is set exactly from the third failure on
abbrev pub IsCounted : User → Type 0
IsCounted u = is_some u.locked_until ≡ leb password_max_fail u.pin_fail_count

failed-IsCounted : (now : ℕ) (u : User) → IsCounted (failed now u)
failed-IsCounted now u = ground arith

found_row :
    (login : Text) (w : World) (id : ℕ) (u : User)
    → IsKeyed w.users
    → find_active login w ≡ some (id, u)
    → lookup id w.users ≡ some u
found_row login w id u keyed found = elim (Option-cases (find_first (has_login login) w.users)) [
  | inl none_found ↦ ground arith
  | inr ((j, v), hit) ↦ ground (arith, find_first-lookup (has_login login) w.users j v keyed hit)
]

module _ (now id : ℕ) (u : User) (z : Wizard) (w : World) where
  reject-IsCounted :
      lookup id w.users ≡ some u
      → AllRows IsCounted w.users
      → AllRows IsCounted (reject now id u z w).world.users
  reject-IsCounted row all = elim (Option-cases (lock_until now (suc u.pin_fail_count))) [
    | inl free ↦
        rw free
          (AllRows-modify IsCounted id (failed now) w.users all row (λ _. failed-IsCounted now u))
    | inr (until, closed) ↦
        rw closed
          (AllRows-modify IsCounted id (failed now) w.users all row (λ _. failed-IsCounted now u))
  ]

  admit-IsCounted :
      (chat : Option ℕ)
      → lookup id w.users ≡ some u
      → AllRows IsCounted w.users
      → AllRows IsCounted (admit now chat id u z w).world.users
  admit-IsCounted none row all = all
  admit-IsCounted (some chat) row all = elim (Bool-cases (held_by_other id chat w.users)) [
    | inl held ↦ rw held all
    | inr free ↦
        rw free (AllRows-modify IsCounted id (logged_in now chat) w.users all row (λ _. refl))
  ]

module _ (compare : Text → Text → Bool) where
  admitted :
      (now : ℕ) (chat : Option ℕ) (text login : Text) (z : Wizard) (w : World) (r : Role)
      → z.login ≡ some login
      → (length (trim text) == 0) ≡ false
      → (step_password compare now chat text z w).replies ≡ welcome r ∷ []
      → Entitled compare now text z w r
  unfolding step_password
  admitted now chat text login z w r his full in_ = elim (Option-cases (find_active login w)) [
    | inl missing ↦ ground arith
    | inr ((id, u), found) ↦ record {
      login = login;
      id = id;
      user = u;
      session = his;
      found = found;
      unlocked = ground arith;
      matches = ground arith;
      his_role = ground arith;
    }
  ]

  -- The scene welcomes a user only with the right password for an active account that is not
  -- locked, and as the role that is stored there.
  pub step_password-Entitled :
      (now : ℕ) (chat : Option ℕ) (text : Text) (z : Wizard) (w : World) (r : Role)
      → (step_password compare now chat text z w).replies ≡ welcome r ∷ []
      → Entitled compare now text z w r
  unfolding step_password
  step_password-Entitled now chat text z w r in_ = elim (Bool-cases (length (trim text) == 0)) [
    | inl empty ↦ ground arith
    | inr full ↦ elim (Option-cases z.login) [
      | inl lost ↦ ground arith
      | inr (login, his) ↦ admitted now chat text login z w r his full in_
    ]
  ]

  counted :
      (now : ℕ) (chat : Option ℕ) (text login : Text) (z : Wizard) (w : World) (id : ℕ) (u : User)
      → IsKeyed w.users
      → AllRows IsCounted w.users
      → z.login ≡ some login
      → (length (trim text) == 0) ≡ false
      → find_active login w ≡ some (id, u)
      → AllRows IsCounted (step_password compare now chat text z w).world.users
  unfolding step_password
  counted now chat text login z w id u keyed all his full found =
      let row = found_row login w id u keyed found in
      rw (full, his, found)
        (elim (Bool-cases (is_locked now u.locked_until)) [
          | inl closed ↦ rw closed all
          | inr unlocked ↦ rw unlocked (elim (Bool-cases (compare (trim text) u.password_hash)) [
            | inr wrong ↦
                rw wrong (reject-IsCounted now id u (record z { login = some login }) w row all)
            | inl right ↦
                rw right (admit-IsCounted now id u (record z { login = some login }) w chat row all)
          ])
        ])

  -- No message to the scene breaks the bond of counter and lock: if every account has the date of a
  -- lock exactly where its counter of wrong passwords stands at three or more, it is so afterwards.
  pub step_password-IsCounted :
      (now : ℕ) (chat : Option ℕ) (text : Text) (z : Wizard) (w : World)
      → IsKeyed w.users
      → AllRows IsCounted w.users
      → AllRows IsCounted (step_password compare now chat text z w).world.users
  unfolding step_password
  step_password-IsCounted now chat text z w keyed all =
      elim (Bool-cases (length (trim text) == 0)) [
        | inl empty ↦ rw empty all
        | inr full ↦ elim (Option-cases z.login) [
          | inl lost ↦ rw (full, lost) all
          | inr (login, his) ↦ elim (Option-cases (find_active login w)) [
            | inl missing ↦ rw (full, his, missing) all
            | inr ((id, u), found) ↦ counted now chat text login z w id u keyed all his full found
          ]
        ]
      ]
