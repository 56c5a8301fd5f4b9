-- ===== src/WebApp/NewOrder/Submission.antt =====
-- The order that the page sends, at the server: webapp/app/new-order/page.tsx with createDraft of
-- src/orders/orders.service.ts, behind the checks of the request's shape.
pub mod Totals
pub mod Accepted
use ustabobo_bot.Base.{
  ℕ, zero, suc, ◌+◌, ◌*◌, ◌≤◌, ◌<◌, ◌≡◌, ◌≢◌, refl, Bool, true, false, not, ◌||◌, ◌&&◌, Option,
  none, some, List, [], ◌∷◌, ◌++◌, map, ◌==◌, ltb, if◌then◌else◌, is_some, length, includes, All,
  arith, Bool-cases, Option-cases, inl, inr, ◌⊎◌,
}
use ustabobo_bot.Base.Table.{lookup, IsKeyed}
use ustabobo_bot.Base.Exec.{Result-cases, ok, err, Result}
use ustabobo_bot.Schema.{World, Env}
use ustabobo_bot.Orders.Draft.{
  CreateOrderDto, create_draft, check_organization, check_items, product_ids, rows_in, missing,
  distinct,
}
use ustabobo_bot.Orders.Draft.Rows.{repeats, rows_in-repeats, rows_in-all, missing-distinct}
use ustabobo_bot.Orders.Lifecycle.Draft.{check_organization-keeps, check_items-keeps}
use ustabobo_bot.WebApp.NewOrder.{Page, SelectedService, payload, service_ids_of, copies}

-- a service of which two or more are in the cart
abbrev pub HasTwice : List SelectedService → Type 0
HasTwice [] = ⊥
HasTwice (s ∷ xs) = (1 < s.quantity) ⊎ HasTwice xs

includes-append :
    (k : ℕ) (xs ys : List ℕ) → includes k (xs ++ ys) ≡ (includes k xs || includes k ys)
includes-append k [] ys = refl
includes-append k (x ∷ xs) ys = ground (arith, includes-append k xs ys)

repeats-append : (xs ys : List ℕ) → repeats ys ≡ true → repeats (xs ++ ys) ≡ true
unfolding repeats
repeats-append [] ys h = h
repeats-append (x ∷ xs) ys h = ground (arith, repeats-append xs ys h)

repeats-copies : (n a : ℕ) (ys : List ℕ) → 1 < n → repeats (copies n a ++ ys) ≡ true
unfolding repeats copies
repeats-copies zero a ys h = absurd (omega arith)
repeats-copies (suc zero) a ys h = absurd (omega arith)
repeats-copies (suc (suc n)) a ys h = ground arith

repeats-service_ids_of :
    (xs : List SelectedService) → HasTwice xs → repeats (service_ids_of xs) ≡ true
unfolding service_ids_of
repeats-service_ids_of [] h = elim h [ ]
repeats-service_ids_of (s ∷ xs) (inl two) = repeats-copies s.quantity s.id (service_ids_of xs) two
repeats-service_ids_of (s ∷ xs) (inr later) =
    repeats-append (copies s.quantity s.id) (service_ids_of xs) (repeats-service_ids_of xs later)

module _ (env : Env) (m : ℕ) (dto : CreateOrderDto) (w : World) where
  create_draft-refused :
      (check_items dto.service_ids (product_ids dto.products) w).0 ≢ ok tt
      → ((id : ℕ) → (create_draft env m dto w).0 ≢ ok id) × ((create_draft env m dto w).1 ≡ w)
  unfolding create_draft
  create_draft-refused bad =
      let org = check_organization-keeps dto.organization_id dto.vehicle_id w in
      let items = check_items-keeps dto.service_ids (product_ids dto.products) w in
      elim (Result-cases (check_organization dto.organization_id dto.vehicle_id w).0) [
        | inr (e, failed) ↦ (λ id done. ground (arith, org), ground (arith, org))
        | inl (u, passed) ↦
            elim (Result-cases (check_items dto.service_ids (product_ids dto.products) w).0) [
              | inl (u', present) ↦ absurd (bad present)
              | inr (e, failed) ↦
                  (λ id done. ground (arith, org, items), ground (arith, org, items))
            ]
      ]

module _ (env : Env) (m : ℕ) (w : World) (p : Page) (keyed : IsKeyed w.services) where
  twice-refused :
      HasTwice p.services
      → (check_items (service_ids_of p.services) (product_ids (payload p).products) w).0 ≢ ok tt
  unfolding check_items
  twice-refused two =
      let fewer =
        rows_in-repeats (service_ids_of p.services) w.services keyed
          (repeats-service_ids_of p.services two) in
      λ done. ground arith

  -- An order from the page with two or more of one service is refused by createDraft, and nothing is
  -- written, whatever else is in it.
  pub payload-twice :
      HasTwice p.services
      → ((id : ℕ) → (create_draft env m (payload p) w).0 ≢ ok id)
        × ((create_draft env m (payload p) w).1 ≡ w)
  payload-twice two = create_draft-refused env m (payload p) w (unfold payload in twice-refused two)
