-- ===== src/Bot/Session/Access.antt =====
-- What the guard of the handlers leaves, and what a log-out takes away.
use ustabobo_bot.Base.{
  ℕ, ◌≡◌, refl, inl, inr, true, Option, none, some, [], ◌∷◌, holds, arith, Bool-cases, Option-cases,
  ◌==◌,
}
use ustabobo_bot.Base.Table.{
  Table, lookup, modify, find_first, IsKeyed, find_first-lookup, find_first-test, modify-IsKeyed,
  lookup-modify,
}
use ustabobo_bot.Schema.{User}
use ustabobo_bot.Orders.Location.{has_tg}
use ustabobo_bot.Bot.Session.{
  Dialogue, find_active_chat, session_of, require_auth, holds_tg, signed_out, on_logout,
}

module _ (now : ℕ) (tg : Option ℕ) (d : Dialogue) where
  pub require_auth-signed :
      {id : ℕ} {u : User}
      → session_of now tg d.world ≡ some (id, u)
      → require_auth now tg d ≡ (some (id, u), d)
  unfolding require_auth session_of
  require_auth-signed {id} {u} signed = elim (Option-cases tg) [
    | inl unknown ↦ rw unknown (ground arith)
    | inr (n, known) ↦ elim (Option-cases (find_active_chat n d.world)) [
      | inl missing ↦ ground arith
      | inr ((k, v), found) ↦ ground arith
    ]
  ]

  pub require_auth-out :
      session_of now tg d.world ≡ none
      → ((require_auth now tg d).0 ≡ none)
        × ((require_auth now tg d).1.world ≡ d.world)
        × ((require_auth now tg d).1.pending ≡ d.pending)
  unfolding require_auth session_of
  require_auth-out out = elim (Option-cases tg) [
    | inl unknown ↦ ground arith
    | inr (n, known) ↦ elim (Option-cases (find_active_chat n d.world)) [
      | inl missing ↦ ground arith
      | inr ((k, v), found) ↦ ground arith
    ]
  ]

-- a chat belongs to one user
abbrev pub HasOneUser : ℕ → Table User → Type 0
HasOneUser tg t =
    (j k : ℕ) (u v : User)
    → lookup j t ≡ some u
    → lookup k t ≡ some v
    → holds tg u.tg_id ≡ true
    → holds tg v.tg_id ≡ true
    → j ≡ k

module _ (tg : ℕ) where
  unseen_chat :
      (t : Table User) → find_first (holds_tg tg) t ≡ none → find_first (has_tg tg) t ≡ none
  unfolding find_first
  unseen_chat [] h = refl
  unseen_chat ((k, u) ∷ t) h = ground (arith, unseen_chat t)

  signed_out_row :
      (t : Table User) (k j : ℕ) (v u : User)
      → IsKeyed t
      → HasOneUser tg t
      → find_first (holds_tg tg) t ≡ some (k, v)
      → find_first (has_tg tg) (modify k signed_out t) ≡ some (j, u)
      → u.last_authenticated_at ≡ none
  signed_out_row t k j v u keyed one first found =
      let there =
        find_first-lookup (has_tg tg) (modify k signed_out t) j u
          (modify-IsKeyed k signed_out t keyed) found in
      elim (Bool-cases (k == j)) [
        | inl hit ↦ ground (
          arith,
          lookup-modify k j signed_out t,
          find_first-lookup (holds_tg tg) t k v keyed first,
        )
        | inr other ↦ ground (
          arith,
          lookup-modify k j signed_out t,
          find_first-test (has_tg tg) (modify k signed_out t) j u found,
          find_first-test (holds_tg tg) t k v first,
          find_first-lookup (holds_tg tg) t k v keyed first,
          one j k u v,
        )
      ]

  -- After `/logout` the chat has no session, at any later or earlier time, as long as no two users
  -- hold the chat: what needs a session is refused until the next log-in.
  pub on_logout-session_of :
      (now : ℕ) (d : Dialogue)
      → IsKeyed d.world.users
      → HasOneUser tg d.world.users
      → session_of now (some tg) (on_logout (some tg) d).world ≡ none
  unfolding on_logout session_of
  on_logout-session_of now d keyed one =
      elim (Option-cases (find_first (holds_tg tg) d.world.users)) [
        | inl unknown ↦ ground (arith, unseen_chat d.world.users unknown)
        | inr ((k, v), first) ↦
            elim (Option-cases (find_first (has_tg tg) (modify k signed_out d.world.users))) [
              | inl gone ↦ ground arith
              | inr ((j, u), found) ↦
                  ground (arith, signed_out_row d.world.users k j v u keyed one first found)
            ]
      ]
