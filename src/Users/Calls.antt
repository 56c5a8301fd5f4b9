-- ===== src/Users/Calls.antt =====
-- The calls that write accounts: what they do to the table, over every sequence of them, and whom
-- toggleUserActive spares.
use ustabobo_bot.Base.{
  ℕ, ◌≡◌, ◌⊎◌, inl, inr, not, ◌||◌, Option, some, List, [], ◌∷◌, ◌==◌, holds, length, arith,
  Bool-cases, Option-cases,
}
use ustabobo_bot.Base.Table.{lookup, find_first, lookup-modify}
use ustabobo_bot.Schema.{World, Env, Text, User, boss}
use ustabobo_bot.Text.{trim}
use ustabobo_bot.Users.{
  CreateUserDto, UpdateUserDto, has_phone, has_login, held_elsewhere, new_user, first_of,
  edited_user, create_user, create_staff, admin_update_user, toggle_user_active, is_staff,
  is_boss_account,
}
use ustabobo_bot.Users.Unique.{
  AreUnique, AccountChange, same, added, edited, switched, AccountChange-AreUnique,
}

-- the calls that write accounts
pub data AccountCall : Type 0 where
  create create_by_staff_api : Env → CreateUserDto → AccountCall
  update : ℕ → UpdateUserDto → AccountCall
  toggle : ℕ → Option ℕ → AccountCall

module _ (hash : Text → Text) where
  -- the state after a call, whether it returned or threw
  unfoldable pub call : AccountCall → World → World
  call (create env dto) w = (create_user hash env dto w).1
  call (create_by_staff_api env dto) w = (create_staff hash env dto w).1
  call (update id dto) w = (admin_update_user hash id dto w).1
  call (toggle id requester) w = (toggle_user_active id requester w).1

  unfoldable pub call_all : List AccountCall → World → World
  call_all [] w = w
  call_all (c ∷ rest) w = call_all rest (call c w)

  create_user-AccountChange :
      (env : Env) (dto : CreateUserDto) (w : World) → AccountChange w (create_user hash env dto w).1
  unfolding create_user
  create_user-AccountChange env dto w =
      let row =
        new_user (trim dto.fullname) dto (first_of dto.percent_rate dto.commission)
          (hash dto.password) in
      elim (Option-cases (find_first (has_phone dto.phone) w.users)) [
        | inr (_, taken) ↦ same (ground arith)
        | inl free_phone ↦ elim (Option-cases (find_first (has_login dto.login) w.users)) [
          | inr (_, taken) ↦ same (ground arith)
          | inl free_login ↦ elim (Bool-cases (length (trim dto.fullname) == 0)) [
            | inl empty ↦ same (ground arith)
            | inr named ↦ added (env.uuid 0) row free_phone free_login (ground arith)
          ]
        ]
      ]

  create_staff-AccountChange :
      (env : Env) (dto : CreateUserDto) (w : World)
      → AccountChange w (create_staff hash env dto w).1
  unfolding create_staff
  create_staff-AccountChange env dto w =
      elim (Option-cases (find_first (has_phone dto.phone) w.users)) [
        | inr (_, taken) ↦ same (ground arith)
        | inl free_phone ↦ elim (Option-cases (find_first (has_login dto.login) w.users)) [
          | inr (_, taken) ↦ same (ground arith)
          | inl free_login ↦ elim (Bool-cases (is_staff dto.role)) [
            | inr refused ↦ same (ground arith)
            | inl staff ↦
                added (env.uuid 0) (new_user dto.fullname dto dto.percent_rate (hash dto.password))
                  free_phone free_login (ground arith)
          ]
        ]
      ]

  admin_update_user-AccountChange :
      (id : ℕ) (dto : UpdateUserDto) (w : World)
      → AccountChange w (admin_update_user hash id dto w).1
  unfolding admin_update_user
  admin_update_user-AccountChange id dto w = elim (Option-cases (lookup id w.users)) [
    | inl absent ↦ same (ground arith)
    | inr (u, found) ↦
        let a = edited_user hash dto u in
        elim (Bool-cases (held_elsewhere (has_phone a.phone) id w.users)) [
          | inl taken ↦ same (ground arith)
          | inr free_phone ↦ elim (Bool-cases (held_elsewhere (has_login a.login) id w.users)) [
            | inl taken ↦ same (ground arith)
            | inr free_login ↦ edited id a free_phone free_login (ground arith)
          ]
        ]
  ]

  toggle_user_active-AccountChange :
      (id : ℕ) (requester : Option ℕ) (w : World)
      → AccountChange w (toggle_user_active id requester w).1
  unfolding toggle_user_active
  toggle_user_active-AccountChange id requester w = elim (Option-cases (lookup id w.users)) [
    | inl absent ↦ same (ground arith)
    | inr (u, found) ↦ elim (Bool-cases (holds id requester || is_boss_account u.role)) [
      | inl spared ↦ same (ground arith)
      | inr allowed ↦ switched id (not u.is_active) (ground arith)
    ]
  ]

  call-AccountChange : (c : AccountCall) (w : World) → AccountChange w (call c w)
  unfolding call
  call-AccountChange (create env dto) w = create_user-AccountChange env dto w
  call-AccountChange (create_by_staff_api env dto) w = create_staff-AccountChange env dto w
  call-AccountChange (update id dto) w = admin_update_user-AccountChange id dto w
  call-AccountChange (toggle id requester) w = toggle_user_active-AccountChange id requester w

  -- Over every sequence of calls that write accounts, refused ones included, no two accounts come to
  -- share a telephone number or a login, if none did before.
  pub call_all-AreUnique :
      (calls : List AccountCall) (w : World) → AreUnique w → AreUnique (call_all calls w)
  unfolding call_all
  call_all-AreUnique [] w h = h
  call_all-AreUnique (c ∷ rest) w h =
      call_all-AreUnique rest (call c w)
        (AccountChange-AreUnique w (call c w) (call-AccountChange c w) h)

-- toggleUserActive leaves every boss's account and the caller's own as they are stored.
pub toggle_user_active-spares :
    (id j : ℕ) (requester : Option ℕ) (w : World) {u : User}
    → lookup j w.users ≡ some u
    → (u.role ≡ boss) ⊎ (requester ≡ some j)
    → lookup j (toggle_user_active id requester w).1.users ≡ some u
unfolding toggle_user_active
toggle_user_active-spares id j requester w {u} there spared =
    elim (Option-cases (lookup id w.users)) [
      | inl absent ↦ ground arith
      | inr (v, found) ↦ ground (
        arith,
        lookup-modify id j (λ (x : User). record x { is_active = not v.is_active }) w.users,
      )
    ]
