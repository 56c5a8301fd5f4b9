-- ===== src/Orders/Lifecycle/Draft.antt =====
-- createDraft and the edits of a draft as changes of the orders.
use ustabobo_bot.Base.{
  ℕ, ◌≡◌, refl, inl, inr, false, not, ◌&&◌, Option, none, some, List, ◌==◌, length, arith,
  Bool-cases, Option-cases,
}
use ustabobo_bot.Base.Int.{ℤ}
use ustabobo_bot.Base.Table.{lookup, find_first}
use ustabobo_bot.Base.Exec.{ok}
use ustabobo_bot.Schema.{World, Env, Text, Order, draft, waiting_confirmation}
use ustabobo_bot.OrderStatusMachine.{can_transition, same_status}
use ustabobo_bot.PriceCalculator.{calculate_order_total}
use ustabobo_bot.Base.Exec.{Result-cases}
use ustabobo_bot.Orders.{totals_of}
use ustabobo_bot.Orders.Draft.{
  CreateOrderDto, create_draft, check_organization, check_items, is_empty_order, product_ids,
}
use ustabobo_bot.Orders.Location.{
  set_location, add_location_to_draft, add_manual_product, draft_of, locate, has_tg, valid_price,
  with_item, typed_item,
}
use ustabobo_bot.Text.{trim}
use ustabobo_bot.Orders.Lifecycle.{Change, same, moved, opened}

pub check_organization-keeps : (a b : Option ℕ) (w : World) → (check_organization a b w).1 ≡ w
unfolding check_organization
check_organization-keeps none none w = refl
check_organization-keeps none (some _) w = refl
check_organization-keeps (some _) none w = refl
check_organization-keeps (some a) (some b) w = ground arith

pub check_items-keeps : (a b : List ℕ) (w : World) → (check_items a b w).1 ≡ w
unfolding check_items
check_items-keeps a b w = ground arith

module _ (env : Env) (m : ℕ) (dto : CreateOrderDto) (w : World) where
  -- all that createDraft checks
  abbrev pub Accepts : Type 0
  Accepts =
      (is_empty_order dto ≡ false)
      × ((check_organization dto.organization_id dto.vehicle_id w).0 ≡ ok tt)
      × ((check_items dto.service_ids (product_ids dto.products) w).0 ≡ ok tt)

  pub create_draft-Change : Change (env.uuid 0) w (create_draft env m dto w).1
  unfolding create_draft
  create_draft-Change = elim (Bool-cases (is_empty_order dto)) [
    | inl empty ↦ same (ground arith)
    | inr full ↦ elim (Result-cases (check_organization dto.organization_id dto.vehicle_id w).0) [
      | inr (_, failed) ↦
          same (ground (arith, check_organization-keeps dto.organization_id dto.vehicle_id w))
      | inl (_, org) ↦
          elim (Result-cases (check_items dto.service_ids (product_ids dto.products) w).0) [
            | inr (_, failed) ↦ same (
                ground (
                  arith,
                  check_organization-keeps dto.organization_id dto.vehicle_id w,
                  check_items-keeps dto.service_ids (product_ids dto.products) w,
                ))
            | inl (_, items) ↦ opened env m dto (
                ground (
                  arith,
                  check_organization-keeps dto.organization_id dto.vehicle_id w,
                  check_items-keeps dto.service_ids (product_ids dto.products) w,
                ))
          ]
    ]
  ]

pub set_location-Change :
    {k : ℕ} (id m : ℕ) (lat lng : ℤ) (w : World) → Change k w (set_location id m lat lng w).1
unfolding set_location
set_location-Change id m lat lng w = elim (Option-cases (lookup id w.orders)) [
  | inl absent ↦ same (ground arith)
  | inr (o, found) ↦
      elim (Bool-cases (o.master_id == m && can_transition o.status waiting_confirmation)) [
        | inl allowed ↦
            moved id o
              (λ o'. record o' {
                lat = some lat;
                lng = some lng;
                total_amount = calculate_order_total (totals_of id w) o.delivery_needed;
                status = waiting_confirmation;
              })
              found (unfold can_transition in ground arith) (ground arith)
        | inr refused ↦ same (ground arith)
      ]
]

abbrev after_locate : Option (ℕ × Order) → ℤ → ℤ → World → World
after_locate none lat lng w = w
after_locate (some (id, o)) lat lng w = (set_location id o.master_id lat lng w).1

locate-world :
    (found : Option (ℕ × Order)) (lat lng : ℤ) (w : World)
    → (locate found lat lng w).1 ≡ after_locate found lat lng w
locate-world none lat lng w = refl
locate-world (some (id, o)) lat lng w = ground arith

after_locate-Change :
    {k : ℕ} (found : Option (ℕ × Order)) (lat lng : ℤ) (w : World)
    → Change k w (after_locate found lat lng w)
after_locate-Change none lat lng w = same refl
after_locate-Change (some (id, o)) lat lng w = set_location-Change id o.master_id lat lng w

pub add_location_to_draft-Change :
    {k : ℕ} (tg : ℕ) (lat lng : ℤ) (w : World) → Change k w (add_location_to_draft tg lat lng w).1
unfolding add_location_to_draft
add_location_to_draft-Change tg lat lng w =
    let found = draft_of (find_first (has_tg tg) w.users) w in
    rw (locate-world found lat lng w) (after_locate-Change found lat lng w)

module _ (env : Env) (id m : ℕ) (name : Text) (price quantity : Option ℤ) (w : World) where
  -- the world with the new item, from which the call counts the total
  abbrev itemized : ℕ → World
  itemized n = with_item (env.uuid 0) (typed_item id (trim name) n quantity) w

  pub add_manual_product-Change :
      {k : ℕ} → Change k w (add_manual_product env id m name price quantity w).1
  unfolding add_manual_product
  add_manual_product-Change = elim (Option-cases (lookup id w.orders)) [
    | inl absent ↦ same (ground arith)
    | inr (o, found) ↦ elim (Option-cases (valid_price price)) [
      | inl bad ↦ same (ground arith)
      | inr (n, good) ↦
          elim (Bool-cases
            (same_status o.status draft && o.master_id == m && not (length (trim name) == 0))) [
              | inl allowed ↦
                  moved id o
                    (λ o'. record o' {
                      total_amount =
                          calculate_order_total (totals_of id (itemized n)) o.delivery_needed;
                    })
                    found (ground arith) (ground arith)
              | inr refused ↦ same (ground arith)
            ]
    ]
  ]
