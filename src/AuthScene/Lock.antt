-- ===== src/AuthScene/Lock.antt =====
-- The lock of an account after wrong passwords.
use ustabobo_bot.Base.{
  ℕ, ◌+◌, ◌≤◌, ◌<◌, ◌≡◌, refl, inl, inr, Bool, false, Option, some, List, [], ◌∷◌, ◌==◌, length,
  All, arith, Option-cases,
}
use ustabobo_bot.Base.Table.{modify, find_first}
use ustabobo_bot.Schema.{World, Text, User}
use ustabobo_bot.Base.Table.{IsKeyed, find_first-modify}
use ustabobo_bot.Text.{trim}
use ustabobo_bot.AuthScene.{
  Wizard, has_login, find_active, is_locked, lock_time, failed, step_password,
}

-- a message to the scene at step 1: when, from which chat, in which session
pub record Attempt : Type 0 where
  pub now : ℕ
  pub chat : Option ℕ
  pub text : Text
  pub wizard : Wizard

module _ (compare : Text → Text → Bool) where
  abbrev pub try_password : Attempt → World → World
  try_password a w = (step_password compare a.now a.chat a.text a.wizard w).world

  -- messages one after the other
  unfoldable pub try_all : List Attempt → World → World
  try_all [] w = w
  try_all (a ∷ rest) w = try_all rest (try_password a w)

  -- for this login, before that time
  abbrev pub IsBefore : Text → ℕ → Attempt → Type 0
  IsBefore login until a = (a.wizard.login ≡ some login) × (a.now < until)

  locked-try_password :
      (a : Attempt) (login : Text) (w : World) (id : ℕ) (u : User) (until : ℕ)
      → IsBefore login until a
      → find_active login w ≡ some (id, u)
      → u.locked_until ≡ some until
      → try_password a w ≡ w
  unfolding step_password
  locked-try_password a login w id u until before found locked = ground arith

  -- While an account is locked no message to the scene changes anything that is stored, the right
  -- password included.
  pub locked-try_all :
      (attempts : List Attempt) (login : Text) (w : World) (id : ℕ) (u : User) (until : ℕ)
      → All (IsBefore login until) attempts
      → find_active login w ≡ some (id, u)
      → u.locked_until ≡ some until
      → try_all attempts w ≡ w
  unfolding try_all
  locked-try_all [] login w id u until before found locked = refl
  locked-try_all (a ∷ rest) login w id u until before found locked =
      rw (locked-try_password a login w id u until before.0 found locked)
        (locked-try_all rest login w id u until before.1 found locked)

  failed-active :
      (login : Text) (now id : ℕ) (u : User) (w : World)
      → IsKeyed w.users
      → find_active login w ≡ some (id, u)
      → find_active login (record w { users = modify id (failed now) w.users })
        ≡ some (id, failed now u)
  failed-active login now id u w keyed found =
      elim (Option-cases (find_first (has_login login) w.users)) [
        | inl none_found ↦ ground arith
        | inr ((j, v), hit) ↦ ground (
          arith,
          find_first-modify (has_login login) (failed now) w.users j v (λ b. refl) keyed hit,
        )
      ]

  wrong-try_password :
      (a : Attempt) (login : Text) (w : World) (id : ℕ) (u : User)
      → a.wizard.login ≡ some login
      → (length (trim a.text) == 0) ≡ false
      → find_active login w ≡ some (id, u)
      → is_locked a.now u.locked_until ≡ false
      → compare (trim a.text) u.password_hash ≡ false
      → try_password a w ≡ record w { users = modify id (failed a.now) w.users }
  unfolding step_password
  wrong-try_password a login w id u his full found unlocked wrong = ground arith

  -- A third wrong password closes the account: whatever is sent for its login in the thirty minutes
  -- that follow, right passwords included, leaves the database as it was after that failure.
  pub third_failure-try_all :
      (a : Attempt) (attempts : List Attempt) (login : Text) (w : World) (id : ℕ) (u : User)
      → IsKeyed w.users
      → a.wizard.login ≡ some login
      → (length (trim a.text) == 0) ≡ false
      → find_active login w ≡ some (id, u)
      → is_locked a.now u.locked_until ≡ false
      → compare (trim a.text) u.password_hash ≡ false
      → 2 ≤ u.pin_fail_count
      → All (IsBefore login (a.now + lock_time)) attempts
      → try_all (a ∷ attempts) w ≡ record w { users = modify id (failed a.now) w.users }
  unfolding try_all
  third_failure-try_all a attempts login w id u keyed his full found unlocked wrong two before =
      rw (wrong-try_password a login w id u his full found unlocked wrong) (
        locked-try_all attempts login (record w { users = modify id (failed a.now) w.users }) id
          (failed a.now u) (a.now + lock_time) before (failed-active login a.now id u w keyed found)
          (ground arith))
