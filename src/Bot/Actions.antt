-- ===== src/Bot/Actions.antt =====
-- src/bot/bot.update.ts: the handlers of the inline buttons, each with the call that it makes on
-- `OrdersService`, and their dispatch. The edits of the message that carried the button are not kept.
pub mod Rights
use ustabobo_bot.Base.{
  ℕ, Bool, true, false, not, Option, none, some, List, [], ◌∷◌, ◌++◌, ◌==◌, ◌&&◌, holds,
  if◌then◌else◌,
}
use ustabobo_bot.Base.Table.{Table, lookup, modify}
use ustabobo_bot.Base.Exec.{
  Exec, Result, ok, err, Error, bad_request, not_found, forbidden, conflict,
}
use ustabobo_bot.Schema.{World, Env, Text, User, Role, master, driver, Order, delivered_by_driver}
use ustabobo_bot.Orders.Work.{confirm, master_start_work, cancel_order}
use ustabobo_bot.Orders.Delivery.{driver_accept, master_confirm_delivery}
use ustabobo_bot.Bot.Callbacks
use ustabobo_bot.Bot.Callbacks.{Callback, parse_callback}
use ustabobo_bot.Bot.Lists.{Listing, history, active, master_tarix, driver_tarix, master_faol}
use ustabobo_bot.Bot.Session.{
  Dialogue, PendingService, Reply, say_log_in, no_right, no_message, finished, listing, for_name,
  ask_name, declined, too_late, failed, alert, say, require_auth, session_of,
}

-- the answer where the service threw: its message as an alert, or the code of the handler
abbrev pub answer_of {ℓ} : {A : Type ℓ} → Result A → Reply
answer_of (ok _) = finished
answer_of (err (bad_request r)) = alert (bad_request r)
answer_of (err (not_found r)) = alert (not_found r)
answer_of (err (forbidden r)) = alert (forbidden r)
answer_of (err _) = failed

-- the same for the button of the drivers, which knows the conflict only
abbrev pub accept_answer {ℓ} : {A : Type ℓ} → Result A → Reply
accept_answer (ok _) = finished
accept_answer (err (conflict _)) = too_late
accept_answer (err _) = failed

abbrev pub same_role : Role → Role → Bool
same_role Role.boss Role.boss = true
same_role Role.master Role.master = true
same_role Role.driver Role.driver = true
same_role _ _ = false

abbrev pub answered {ℓ} : {A : Type ℓ} → (Result A → Reply) → Result A × World → Dialogue → Dialogue
answered f (r, w) d = say (f r) (record d { world = w })

-- a handler behind `requireAuth`
abbrev pub Handler : Type 0
Handler = ℕ → User → Dialogue → Dialogue

abbrev pub guarded : Option (ℕ × User) × Dialogue → Handler → Dialogue
guarded (none, d) k = say say_log_in d
guarded (some (id, u), d) k = k id u d

abbrev pub only : Role → Handler → Handler
only r k id u d = if same_role u.role r then k id u d else say no_right d

-- a list of orders, shown in place of the message, which must be known
abbrev pub show_list : Bool → (ℕ → World → Listing) → Handler
show_list has_message list id u d =
    if has_message then say (listing (list id d.world)) d else say no_message d

-- `order.updateMany({ where: { id, driver_id }, data: { status: delivered_by_driver } })`
abbrev pub if_his : ℕ → Order → Order
if_his driver_id o =
    if holds driver_id o.driver_id then record o { status = delivered_by_driver } else o

abbrev pub set_delivered : ℕ → ℕ → World → World
set_delivered id driver_id w = record w { orders = modify id (if_his driver_id) w.orders }

-- where the button was pressed: the clock, the sender, and the message that carries the button
pub record Press : Type 0 where
  pub env : Env
  pub from : Option ℕ
  pub message : Option (ℕ × ℕ)

-- The parameter reads an id of callback data: a text that is no uuid makes the database throw.
module _ (id_of : Text → Option ℕ) where
  -- the call that a button makes for the user who pressed it
  abbrev pub on_id : (ℕ → Dialogue → Dialogue) → Option ℕ → Dialogue → Dialogue
  on_id k none d = say failed d
  on_id k (some id) d = k id d

  abbrev pub on_driver_delivered : Text → Handler
  on_driver_delivered id user u d =
      on_id (λ k d'. say finished (record d' { world = set_delivered k user d'.world })) (id_of id)
        d

  abbrev pub on_confirm_order : Text → Handler
  on_confirm_order id user u d =
      on_id (λ k d'. answered answer_of (confirm k user d'.world) d') (id_of id) d

  abbrev pub on_cancel_order : Text → Handler
  on_cancel_order id user u d =
      on_id (λ k d'. answered answer_of (cancel_order k user d'.world) d') (id_of id) d

  abbrev pub on_accept_order : Text → Handler
  on_accept_order id user u d =
      on_id (λ k d'. answered accept_answer (driver_accept k user d'.world) d') (id_of id) d

  abbrev pub on_delivery : Env → Bool → Text → Handler
  on_delivery env yes_or_no id user u d =
      on_id (λ k d'. answered answer_of (master_confirm_delivery env k user yes_or_no d'.world) d')
        (id_of id) d

  abbrev pub on_start_work : Text → Handler
  on_start_work id user u d =
      on_id (λ k d'. answered answer_of (master_start_work k user d'.world) d') (id_of id) d

  abbrev pub is_message : Option (ℕ × ℕ) → Bool
  is_message none = false
  is_message (some _) = true

  -- `pendingManualServiceByTgId.set(…)`
  abbrev pub ask_service : Option ℕ → Option (ℕ × ℕ) → Text → Handler
  ask_service (some tg) (some (chat, message)) id user u d = say ask_name (record d {
    pending =
        (tg, record { order = id; chat = chat; message = message; step = for_name }) ∷ d.pending;
  })
  ask_service _ _ id user u d = say no_message d

  abbrev pub on_add_manual_service : Press → Text → Dialogue → Dialogue
  on_add_manual_service p id d = elim p.from [
    | none ↦ d
    | some _ ↦ guarded (require_auth p.env.now p.from d) (ask_service p.from p.message id)
  ]

  -- the handler of each button
  unfoldable pub on_callback : Press → Callback → Dialogue → Dialogue
  on_callback p (Callback.driver_delivered id) d =
      guarded (require_auth p.env.now p.from d) (only driver (on_driver_delivered id))
  on_callback p (Callback.master_tarix skip) d =
      guarded (require_auth p.env.now p.from d)
        (only master (show_list (is_message p.message) (λ id w. history (master_tarix skip id w))))
  on_callback p (Callback.driver_tarix skip) d =
      guarded (require_auth p.env.now p.from d)
        (only driver (show_list (is_message p.message) (λ id w. history (driver_tarix skip id w))))
  on_callback p Callback.master_faol_refresh d =
      guarded (require_auth p.env.now p.from d)
        (only master (show_list (is_message p.message) (λ id w. active (master_faol id w))))
  on_callback p (Callback.confirm_order id) d =
      guarded (require_auth p.env.now p.from d) (on_confirm_order id)
  on_callback p (Callback.cancel_order id) d =
      guarded (require_auth p.env.now p.from d) (on_cancel_order id)
  on_callback p (Callback.add_manual_service id) d = on_add_manual_service p id d
  on_callback p (Callback.accept_order id) d =
      guarded (require_auth p.env.now p.from d) (on_accept_order id)
  on_callback p (Callback.confirm_delivery id) d =
      guarded (require_auth p.env.now p.from d) (on_delivery p.env true id)
  on_callback p (Callback.reject_delivery id) d =
      guarded (require_auth p.env.now p.from d) (on_delivery p.env false id)
  on_callback p (Callback.start_work id) d =
      guarded (require_auth p.env.now p.from d) (on_start_work id)
  on_callback p (Callback.decline_work _) d = say declined d

  -- data that no pattern matches has no handler
  abbrev pub handled : Press → Option Callback → Dialogue → Dialogue
  handled p none d = d
  handled p (some c) d = on_callback p c d

  unfoldable pub press : Press → Text → Dialogue → Dialogue
  press p data_text d = handled p (parse_callback data_text) d
