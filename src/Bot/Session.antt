-- ===== src/Bot/Session.antt =====
-- src/bot/bot-auth.middleware.ts, and requireAuth, onLogout and onStart of src/bot/bot.update.ts: who
-- may talk to the bot. A message that cannot be sent is dropped by the source, so sending never fails.
pub mod Access
use ustabobo_bot.Base.{
  ℕ, ◌-◌, ◌*◌, Bool, true, false, not, ◌&&◌, ◌||◌, Option, none, some, List, [], ◌∷◌, ◌++◌, leb,
  if◌then◌else◌, holds, length, ◌==◌,
}
use ustabobo_bot.Base.Table.{Table, lookup, modify, find_first}
use ustabobo_bot.Base.Exec.{Result, ok, err, Error, not_found, Reason}
use ustabobo_bot.Schema.{World, Env, Text, User, Order, Role}
use ustabobo_bot.Prisma.{tg_of}
use ustabobo_bot.Text.{trim, codes, strip_prefix, same_text, to_lower}
use ustabobo_bot.Orders.Location.{has_tg}
use ustabobo_bot.Orders.Completion.{customer_confirm}
use ustabobo_bot.Bot.Lists.{Listing}

-- what the bot says: in the chat, and as the answer to a button
pub data Reply : Type 0 where
  no_access blocked log_in_first no_identity logged_out : Reply
  bad_link confirmed stale_token start_failed : Reply
  menu : Role → Reply
  ask_login : Reply
  order_closed : ℕ → Reply
  say_log_in no_right no_message finished ask_name declined too_late failed : Reply
  alert : Error → Reply
  location_missing no_draft no_delivery not_saved order_gone location_failed : Reply
  ask_total : ℕ → ℕ → Reply
  listing : Listing → Reply
  share_location next_version : Reply
  ask_name_again ask_price ask_price_again : Reply
  service_added : Text → ℕ → Reply
  not_added : Option Error → Reply
  check_missing : Reply
  checked : Option ℕ → ℕ → Option ℕ → Reply

-- what the chat is asked for next: the name of the service, or the price of the named one
pub data ServiceStep : Type 0 where
  for_name : ServiceStep
  for_price : Text → ServiceStep

-- `pendingManualServiceByTgId`: the manual service that a chat is asked for
pub record PendingService : Type 0 where
  pub order : Text
  pub chat : ℕ
  pub message : ℕ
  pub step : ServiceStep

pub record Dialogue : Type 0 where
  pub world : World
  pub pending : List (ℕ × PendingService)
  pub replies : List Reply
  pub in_auth_scene : Bool

abbrev pub say : Reply → Dialogue → Dialogue
say r d = record d { replies = d.replies ++ r ∷ [] }

-- `SESSION_TTL_MS`
abbrev pub session_ttl : ℕ
session_ttl = 8 * 60 * 60 * 1000

-- `at && Date.now() - at <= SESSION_TTL_MS`
abbrev pub is_fresh : ℕ → Option ℕ → Bool
is_fresh now none = false
is_fresh now (some at) = leb (now - at) session_ttl

-- `findFirst({ where: { tg_id, is_active: true } })`
abbrev pub find_active_chat : ℕ → World → Option (ℕ × User)
find_active_chat tg w = find_first (has_tg tg) w.users

-- the user with a running session
abbrev pub in_session : ℕ → Option (ℕ × User) → Option (ℕ × User)
in_session now none = none
in_session now (some (id, u)) = if is_fresh now u.last_authenticated_at then some (id, u) else none

unfoldable pub session_of : ℕ → Option ℕ → World → Option (ℕ × User)
session_of now none w = none
session_of now (some tg) w = in_session now (find_active_chat tg w)

-- the message to a known user whose session has run out
abbrev pub ask_again : ℕ → Option (ℕ × User) → Dialogue → Dialogue
ask_again now none d = d
ask_again now (some (id, u)) d =
    if is_fresh now u.last_authenticated_at then d else say log_in_first d

abbrev pub ask_chat : ℕ → Option ℕ → Dialogue → Dialogue
ask_chat now none d = d
ask_chat now (some tg) d = ask_again now (find_active_chat tg d.world) d

unfoldable pub require_auth : ℕ → Option ℕ → Dialogue → Option (ℕ × User) × Dialogue
require_auth now tg d = (session_of now tg d.world, ask_chat now tg d)

-- `/^\/?(start|help|logout)$/i`
unfoldable pub is_open_command : Text → Bool
unfolding to_lower
is_open_command s =
    let word = to_lower s in
    same_text (codes "start") word
    || same_text (codes "/start") word
    || same_text (codes "help") word
    || same_text (codes "/help") word
    || same_text (codes "logout") word
    || same_text (codes "/logout") word

abbrev pub holds_tg : ℕ → User → Bool
holds_tg tg u = holds tg u.tg_id

-- the middleware: the reply instead of `next()`, if there is one
abbrev pub refuse_user : Option (ℕ × User) → Option Reply
refuse_user none = some no_access
refuse_user (some (id, u)) = if u.is_active then none else some blocked

unfoldable pub middleware : Option ℕ → Text → Dialogue → Option Reply
unfolding trim is_open_command
middleware none message d = none
middleware (some tg) message d =
    if is_open_command (trim message) || d.in_auth_scene
    then none
    else refuse_user (find_first (holds_tg tg) d.world.users)

abbrev pub signed_out : User → User
signed_out u = record u { last_authenticated_at = none; is_authenticated = false }

abbrev pub sign_out : Option (ℕ × User) → World → World
sign_out none w = w
sign_out (some (id, _)) w = record w { users = modify id signed_out w.users }

unfoldable pub on_logout : Option ℕ → Dialogue → Dialogue
on_logout none d = say no_identity d
on_logout (some tg) d = say logged_out (record d {
  world = sign_out (find_first (holds_tg tg) d.world.users) d.world;
  in_auth_scene = false;
})

-- `startPayload` of a deep link: the token behind `conf_`
abbrev pub link_token : Option Text → Option Text
link_token none = none
link_token (some payload) = strip_prefix (codes "conf_") payload

-- the chat of the confirmed order's master
abbrev pub master_chat : Option Order → World → Option ℕ
master_chat none w = none
master_chat (some o) w = tg_of (lookup o.master_id w.users)

abbrev pub tell_master : Option ℕ → Dialogue → Dialogue
tell_master none d = d
tell_master (some chat) d = say (order_closed chat) d

abbrev pub after_link : Result (Option Order) × World → Dialogue → Dialogue
after_link (ok o, w) d = tell_master (master_chat o w) (say confirmed (record d { world = w }))
after_link (err (not_found _), w) d = say stale_token (record d { world = w })
after_link (err _, w) d = say start_failed (record d { world = w })

-- `scene.enter('auth')`
abbrev pub enter_auth : Dialogue → Dialogue
enter_auth d = say ask_login (record d { in_auth_scene = true })

abbrev pub greet : Option (ℕ × User) → Dialogue → Dialogue
greet none d = enter_auth d
greet (some (_, u)) d = say (menu u.role) d

abbrev pub start_chat : ℕ → Option ℕ → Dialogue → Dialogue
start_chat now none d = say no_identity d
start_chat now (some tg) d = greet (session_of now (some tg) d.world) d

-- The parameter reads a token: a text that is no uuid makes the database throw.
module _ (id_of : Text → Option ℕ) where
  abbrev pub confirm_token : Env → Option ℕ → Dialogue → Dialogue
  confirm_token env none d = say start_failed d
  confirm_token env (some token) d = after_link (customer_confirm env token d.world) d

  abbrev pub follow_link : Env → Text → Dialogue → Dialogue
  follow_link env token d =
      if length token == 0 then say bad_link d else confirm_token env (id_of token) d

  abbrev pub start_with : Env → Option ℕ → Option Text → Dialogue → Dialogue
  start_with env tg none d = start_chat env.now tg d
  start_with env tg (some token) d = follow_link env token d

  unfoldable pub on_start : Env → Option ℕ → Option Text → Dialogue → Dialogue
  unfolding strip_prefix session_of
  on_start env tg payload d =
      start_with env tg (link_token payload) (record d { in_auth_scene = false })
