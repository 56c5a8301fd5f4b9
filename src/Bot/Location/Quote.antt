-- ===== src/Bot/Location/Quote.antt =====
-- The total that a master is asked to confirm.
use ustabobo_bot.Base.{
  ℕ, sym, subst, ◌≡◌, refl, inl, inr, Option, none, some, [], ◌∷◌, arith, Bool-cases, Option-cases,
}
use ustabobo_bot.Base.Int.{ℤ}
use ustabobo_bot.Base.Table.{lookup}
use ustabobo_bot.Schema.{World, Order, User}
use ustabobo_bot.Orders.Location.{latest, is_draft_of, locate, add_location_to_draft}
use ustabobo_bot.Orders.Totals.{set_location-Totalled}
use ustabobo_bot.Bot.Session.{Dialogue, ask_total, session_of, find_active_chat}
use ustabobo_bot.Bot.Session.Access.{require_auth-signed}
use ustabobo_bot.Bot.Location.{on_location, after_location}

-- the question quotes what is stored
abbrev pub IsStoredTotal : ℕ → ℕ → World → Type 0
IsStoredTotal id total w = (o : Order) × (lookup id w.orders ≡ some o) × (o.total_amount ≡ total)

module _ (tg : ℕ) (lat lng : ℤ) (w : World) (user k : ℕ) (u : User) (o : Order) where
  add_location-set_location :
      find_active_chat tg w ≡ some (user, u)
      → latest (is_draft_of user) w.orders ≡ some (k, o)
      → add_location_to_draft tg lat lng w ≡ locate (some (k, o)) lat lng w
  unfolding add_location_to_draft
  add_location-set_location his drafted = rw (his, drafted) refl

  quoted :
      (d : Dialogue) (id t : ℕ)
      → d.replies ≡ []
      → (after_location k (locate (some (k, o)) lat lng w) d).replies ≡ ask_total id t ∷ []
      → IsStoredTotal id t (after_location k (locate (some (k, o)) lat lng w) d).world
  quoted d id t silent said = elim (set_location-Totalled k o.master_id lat lng w) [
    | inl (e, failed) ↦ absurd (ground arith)
    | inr (o', done, (there, total)) ↦ (o', ground arith, ground arith)
  ]

-- Where a location is answered with the question for the confirmation, the total in it is the one that
-- is stored with the order afterwards.
pub on_location-IsStoredTotal :
    (now tg : ℕ) (place : Option (ℤ × ℤ)) (d : Dialogue) (user id t : ℕ) {u : User}
    → session_of now (some tg) d.world ≡ some (user, u)
    → d.replies ≡ []
    → (on_location now (some tg) place d).replies ≡ ask_total id t ∷ []
    → IsStoredTotal id t (on_location now (some tg) place d).world
unfolding on_location session_of
on_location-IsStoredTotal now tg none d user id t {u} signed silent said =
    absurd (ground (arith, require_auth-signed now (some tg) d signed))
on_location-IsStoredTotal now tg (some (lat, lng)) d user id t {u} signed silent said =
    elim (Option-cases (find_active_chat tg d.world)) [
      | inl nobody ↦ absurd (ground arith)
      | inr ((j, v), his) ↦ elim (Option-cases (latest (is_draft_of user) d.world.orders)) [
        | inl nothing ↦ absurd (ground (arith, require_auth-signed now (some tg) d signed))
        | inr ((k, o), drafted) ↦ elim (Bool-cases o.delivery_needed) [
          | inr pick_up ↦ absurd (ground (arith, require_auth-signed now (some tg) d signed))
          | inl needed ↦
              let him : find_active_chat tg d.world ≡ some (user, u) = ground arith in
              let whole : on_location now (some tg) (some (lat, lng)) d
                  ≡ after_location k (locate (some (k, o)) lat lng d.world) d =
                rw
                  (
                    require_auth-signed now (some tg) d signed,
                    drafted,
                    needed,
                    add_location-set_location tg lat lng d.world user k u o him drafted,
                  )
                  refl in
              subst (λ (x : Dialogue). IsStoredTotal id t x.world) (sym whole)
                (quoted tg lat lng d.world user k u o d id t silent
                  (subst (λ (x : Dialogue). x.replies ≡ ask_total id t ∷ []) whole said))
        ]
      ]
    ]
