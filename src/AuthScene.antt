-- ===== src/AuthScene.antt =====
-- src/bot/auth.scene.ts: the wizard that logs a user in by Telegram, with its lock after three
-- wrong passwords. `bcrypt.compare` is a parameter. The replies that are sent are values; a reply
-- that cannot be sent is dropped by the source, so sending never fails here.
pub mod Lock
pub mod Access
use ustabobo_bot.Base.{
  ℕ, suc, ◌+◌, ◌-◌, ◌*◌, ◌/◌, Bool, true, false, not, ◌&&◌, ◌||◌, Option, none, some, List, [], ◌∷◌,
  ◌++◌, ltb, leb, ◌==◌, if◌then◌else◌, holds, length,
}
use ustabobo_bot.Base.Table.{Table, modify, find_first}
use ustabobo_bot.Schema.{World, Text, User, Role}
use ustabobo_bot.Text.{trim, same_text}

pub data Reply : Type 0 where
  ask_login ask_password login_not_command not_allowed session_over wrong_password : Reply
  locked_now unknown_chat server_error : Reply
  still_locked : ℕ → Reply
  welcome : Role → Reply

-- the wizard's session: the login that step 0 stored, the step, and whether the scene is still on
pub record Wizard : Type 0 where
  pub login : Option Text
  pub cursor : ℕ
  pub is_inside : Bool

abbrev pub password_max_fail : ℕ
password_max_fail = 3

-- `LOCK_MINUTES * 60 * 1000`
abbrev pub lock_time : ℕ
lock_time = 30 * 60 * 1000

-- what a step leaves: the replies in order, the session, the database
pub record Turn : Type 0 where
  pub replies : List Reply
  pub wizard : Wizard
  pub world : World

abbrev pub turn : List Reply → Wizard → World → Turn
turn replies z w = record { replies = replies; wizard = z; world = w }

-- `onEnter`, which `ctx.scene.reenter()` runs too
abbrev pub on_enter : List Reply → World → Turn
on_enter before w =
    turn (before ++ ask_login ∷ []) (record { login = none; cursor = 0; is_inside = true }) w

-- `ctx.scene.leave()`
abbrev pub leave : List Reply → Wizard → World → Turn
leave replies z w = turn replies (record z { is_inside = false }) w

abbrev pub has_login : Text → User → Bool
has_login login u = same_text login u.login

-- `user.findUnique({ where: { login } })`, kept if the user is active
abbrev pub active : Option (ℕ × User) → Option (ℕ × User)
active none = none
active (some (id, u)) = if u.is_active then some (id, u) else none

abbrev pub find_active : Text → World → Option (ℕ × User)
find_active login w = active (find_first (has_login login) w.users)

-- `trimmed.startsWith('/')`
abbrev pub is_command : Text → Bool
is_command [] = false
is_command (c ∷ _) = c == b'/'

abbrev pub accept_login : Option (ℕ × User) → Text → Wizard → World → Turn
accept_login none login z w = leave (not_allowed ∷ []) z w
accept_login (some _) login z w =
    turn (ask_password ∷ []) (record z { login = some login; cursor = suc z.cursor }) w

-- step 0
unfoldable pub step_login : Text → Wizard → World → Turn
unfolding trim
step_login text z w =
    let trimmed = trim text in
    if length trimmed == 0
    then turn (ask_login ∷ []) z w
    else if is_command trimmed
    then turn (login_not_command ∷ []) z w
    else accept_login (find_active trimmed w) trimmed z w

-- `user.locked_until && new Date(user.locked_until) > new Date()`
abbrev pub is_locked : ℕ → Option ℕ → Bool
is_locked now none = false
is_locked now (some until) = ltb now until

-- `Math.ceil((locked_until - now) / 60_000)`
abbrev pub minutes_left : ℕ → Option ℕ → ℕ
minutes_left now none = 0
minutes_left now (some until) = (until - now + 59_999) / 60_000

abbrev pub lock_until : ℕ → ℕ → Option ℕ
lock_until now fails = if leb password_max_fail fails then some (now + lock_time) else none

-- a wrong password: one more failure, and the lock that goes with it
abbrev pub failed : ℕ → User → User
failed now u = record u {
  pin_fail_count = suc u.pin_fail_count;
  locked_until = lock_until now (suc u.pin_fail_count);
}

abbrev pub after_failure : Option ℕ → Wizard → World → Turn
after_failure none z w = turn (wrong_password ∷ ask_password ∷ []) z w
after_failure (some _) z w = leave (locked_now ∷ []) z w

abbrev pub reject : ℕ → ℕ → User → Wizard → World → Turn
reject now id u z w =
    after_failure (lock_until now (suc u.pin_fail_count)) z
      (record w { users = modify id (failed now) w.users })

-- the right password: the chat is bound to the user and the failures are forgotten
abbrev pub logged_in : ℕ → ℕ → User → User
logged_in now chat u = record u {
  tg_id = some chat;
  is_authenticated = true;
  last_authenticated_at = some now;
  pin_fail_count = 0;
  locked_until = none;
}

-- `tg_id` is unique: a chat that another user holds makes the update throw
unfoldable pub held_by_other : ℕ → ℕ → Table User → Bool
held_by_other id chat [] = false
held_by_other id chat ((j, u) ∷ t) =
    (not (j == id) && holds chat u.tg_id) || held_by_other id chat t

abbrev pub admit : ℕ → Option ℕ → ℕ → User → Wizard → World → Turn
admit now none id u z w = turn (unknown_chat ∷ []) z w
admit now (some chat) id u z w =
    if held_by_other id chat w.users
    then on_enter (server_error ∷ []) w
    else leave (welcome u.role ∷ []) z (record w { users = modify id (logged_in now chat) w.users })

module _ (compare : Text → Text → Bool) where
  abbrev pub check_password : ℕ → Option ℕ → Text → Option (ℕ × User) → Wizard → World → Turn
  check_password now chat password none z w = leave (not_allowed ∷ []) z w
  check_password now chat password (some (id, u)) z w =
      if is_locked now u.locked_until
      then on_enter (still_locked (minutes_left now u.locked_until) ∷ []) w
      else if compare password u.password_hash
      then admit now chat id u z w
      else reject now id u z w

  abbrev pub with_login : ℕ → Option ℕ → Text → Option Text → Wizard → World → Turn
  with_login now chat password none z w = on_enter (session_over ∷ []) w
  with_login now chat password (some login) z w =
      check_password now chat password (find_active login w) z w

  -- step 1
  unfoldable pub step_password : ℕ → Option ℕ → Text → Wizard → World → Turn
  unfolding trim held_by_other
  step_password now chat text z w =
      let password = trim text in
      if length password == 0
      then turn (ask_password ∷ []) z w
      else with_login now chat password z.login z w
