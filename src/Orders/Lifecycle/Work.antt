-- ===== src/Orders/Lifecycle/Work.antt =====
-- The handlers of src/orders/orders.service.ts that need no driver, as changes of the orders.
use ustabobo_bot.Base.{ℕ, inl, inr, Bool, ◌&&◌, some, ◌==◌, arith, Bool-cases, Option-cases}
use ustabobo_bot.Base.Table.{lookup}
use ustabobo_bot.Schema.{World, Env, working, waiting_customer_confirmation, cancelled}
use ustabobo_bot.OrderStatusMachine.{can_transition}
use ustabobo_bot.Orders.{totals_of}
use ustabobo_bot.Orders.Work.{
  confirm, master_start_work, cancel_order, finish, receive, confirm_status, confirm_total,
}
use ustabobo_bot.Orders.Lifecycle.{Change, same, moved}

pub confirm-Change : {k : ℕ} (id m : ℕ) (w : World) → Change k w (confirm id m w).1
unfolding confirm
confirm-Change id m w = elim (Option-cases (lookup id w.orders)) [
  | inl absent ↦ same (ground arith)
  | inr (o, found) ↦
      elim (Bool-cases (o.master_id == m && can_transition o.status (confirm_status o))) [
        | inl allowed ↦
            moved id o
              (λ o'. record o' {
                status = confirm_status o;
                total_amount = confirm_total o (totals_of id w);
              })
              found (unfold can_transition in ground arith) (ground arith)
        | inr refused ↦ same (ground arith)
      ]
]

pub master_start_work-Change :
    {k : ℕ} (id m : ℕ) (w : World) → Change k w (master_start_work id m w).1
unfolding master_start_work
master_start_work-Change id m w = elim (Option-cases (lookup id w.orders)) [
  | inl absent ↦ same (ground arith)
  | inr (o, found) ↦ elim (Bool-cases (o.master_id == m && can_transition o.status working)) [
    | inl allowed ↦
        moved id o (λ o'. record o' { status = working }) found
          (unfold can_transition in ground arith) (ground arith)
    | inr refused ↦ same (ground arith)
  ]
]

pub cancel_order-Change : {k : ℕ} (id m : ℕ) (w : World) → Change k w (cancel_order id m w).1
unfolding cancel_order
cancel_order-Change id m w = elim (Option-cases (lookup id w.orders)) [
  | inl absent ↦ same (ground arith)
  | inr (o, found) ↦ elim (Bool-cases (o.master_id == m && can_transition o.status cancelled)) [
    | inl allowed ↦
        moved id o (λ o'. record o' { status = cancelled }) found
          (unfold can_transition in ground arith) (ground arith)
    | inr refused ↦ same (ground arith)
  ]
]

pub receive-Change : {k : ℕ} (id m : ℕ) (w : World) → Change k w (receive id m w).1
unfolding receive
receive-Change id m w = elim (Option-cases (lookup id w.orders)) [
  | inl absent ↦ same (ground arith)
  | inr (o, found) ↦ elim (Bool-cases (o.master_id == m && can_transition o.status working)) [
    | inl allowed ↦
        moved id o (λ o'. record o' { status = working }) found
          (unfold can_transition in ground arith) (ground arith)
    | inr refused ↦ same (ground arith)
  ]
]

pub finish-Change :
    {k : ℕ} (env : Env) (named : Bool) (id m : ℕ) (w : World)
    → Change k w (finish env named id m w).1
unfolding finish
finish-Change env named id m w = elim (Option-cases (lookup id w.orders)) [
  | inl absent ↦ same (ground arith)
  | inr (o, found) ↦
      elim (Bool-cases
        (o.master_id == m && can_transition o.status waiting_customer_confirmation)) [
          | inl allowed ↦
              moved id o
                (λ o'. record o' {
                  confirm_token = some (env.uuid 0);
                  status = waiting_customer_confirmation;
                })
                found (unfold can_transition in ground arith) (ground arith)
          | inr refused ↦ same (ground arith)
        ]
]
