-- ===== src/Organizations/Vehicles.antt =====
-- The vehicles of the organizations, over every sequence of calls, and what createDraft makes of them.
use ustabobo_bot.Base.{
  ℕ, ◌≡◌, refl, Bool, true, not, some, List, [], ◌∷◌, arith, Option-cases, Bool-cases, inl, inr,
}
use ustabobo_bot.Base.Table.{
  Table, lookup, modify, erase, find_many, lookup-modify, lookup-cons, IsKeyed,
}
use ustabobo_bot.Base.Exec.{ok}
use ustabobo_bot.Schema.{World, Env, Vehicle}
use ustabobo_bot.Orders.Draft.{check_organization}
use ustabobo_bot.Organizations.Registry.{
  register_organization, amend_organization, register_vehicle, amend_vehicle, remove_organization,
  remove_vehicle, remove_service, registered, amended, entered, amended_vehicle, has_vehicles,
  is_stored,
}
use ustabobo_bot.Organizations.{
  CreateVehicleDto, create_organization, update_organization, create_org_vehicle, update_vehicle,
  toggle_vehicle_active, create_service, update_service, delete_service, toggle_service_active,
  get_org_vehicles, is_offered, is_active_organization, changed_organization, changed_vehicle,
  new_organization, new_vehicle,
}
use ustabobo_bot.Organizations.Calls.{
  FleetCall, enter, change, enter_vehicle, change_vehicle, toggle_vehicle, enter_service,
  change_service, delete, toggle_service, register, amend, register_a_vehicle, amend_a_vehicle,
  remove, remove_a_vehicle, remove_a_service, run, run_all, HaveOwner, kept, modify-HaveOwner,
  amend-HaveOwner, erase-HaveOwner, unused-HaveOwner, moved, amended-owner,
}

module _ (w : World) (h : HaveOwner w.organizations w.vehicles) where
  quiet :
      (w' : World)
      → w'.organizations ≡ w.organizations
      → w'.vehicles ≡ w.vehicles
      → HaveOwner w'.organizations w'.vehicles
  quiet w' e f = moved w' w.organizations w.vehicles e f h

  run-HaveOwner : (c : FleetCall) → HaveOwner (run c w).organizations (run c w).vehicles
  unfolding run create_organization update_organization create_org_vehicle update_vehicle
      toggle_vehicle_active create_service update_service delete_service toggle_service_active
      register_organization amend_organization register_vehicle amend_vehicle remove_organization
      remove_vehicle remove_service
  run-HaveOwner (enter env dto) =
      let orgs = (env.uuid 0, new_organization dto) ∷ w.organizations in
      moved (run (enter env dto) w) orgs w.vehicles refl refl (
        kept w.organizations orgs w.vehicles
          (λ j there.
            ground (arith, lookup-cons (env.uuid 0) j (new_organization dto) w.organizations))
          h)
  run-HaveOwner (change id dto) = elim (Option-cases (lookup id w.organizations)) [
    | inl absent ↦ quiet (run (change id dto) w) (ground arith) (ground arith)
    | inr (o, found) ↦
        let orgs = modify id (changed_organization dto) w.organizations in
        moved (run (change id dto) w) orgs w.vehicles (ground arith) (ground arith) (
          kept w.organizations orgs w.vehicles
            (λ j there.
              ground (arith, lookup-modify id j (changed_organization dto) w.organizations))
            h)
  ]
  run-HaveOwner (enter_vehicle env org dto) = elim (Option-cases (lookup org w.organizations)) [
    | inl absent ↦ quiet (run (enter_vehicle env org dto) w) (ground arith) (ground arith)
    | inr (o, found) ↦
        moved (run (enter_vehicle env org dto) w) w.organizations
          ((env.uuid 0, new_vehicle org dto) ∷ w.vehicles) (ground arith) (ground arith)
          (ground arith, h)
  ]
  run-HaveOwner (change_vehicle id dto) = elim (Option-cases (lookup id w.vehicles)) [
    | inl absent ↦ quiet (run (change_vehicle id dto) w) (ground arith) (ground arith)
    | inr (v, found) ↦
        moved (run (change_vehicle id dto) w) w.organizations
          (modify id (changed_vehicle dto) w.vehicles) (ground arith) (ground arith)
          (modify-HaveOwner w.organizations id (changed_vehicle dto) w.vehicles (λ u. refl) h)
  ]
  run-HaveOwner (toggle_vehicle id) = elim (Option-cases (lookup id w.vehicles)) [
    | inl absent ↦ quiet (run (toggle_vehicle id) w) (ground arith) (ground arith)
    | inr (v, found) ↦
        let switch : Vehicle → Vehicle = λ u. record u { is_active = not v.is_active } in
        moved (run (toggle_vehicle id) w) w.organizations (modify id switch w.vehicles)
          (ground arith) (ground arith)
          (modify-HaveOwner w.organizations id switch w.vehicles (λ u. refl) h)
  ]
  run-HaveOwner (enter_service env dto) = h
  run-HaveOwner (change_service id dto) =
      quiet (run (change_service id dto) w) (ground arith) (ground arith)
  run-HaveOwner (register env dto) =
      let orgs = (env.uuid 0, registered dto) ∷ w.organizations in
      moved (run (register env dto) w) orgs w.vehicles refl refl (
        kept w.organizations orgs w.vehicles
          (λ j there. ground (arith, lookup-cons (env.uuid 0) j (registered dto) w.organizations))
          h)
  run-HaveOwner (amend id dto) = elim (Option-cases (lookup id w.organizations)) [
    | inl absent ↦ quiet (run (amend id dto) w) (ground arith) (ground arith)
    | inr (o, found) ↦
        let orgs = modify id (amended dto) w.organizations in
        moved (run (amend id dto) w) orgs w.vehicles (ground arith) (ground arith) (
          kept w.organizations orgs w.vehicles
            (λ j there. ground (arith, lookup-modify id j (amended dto) w.organizations)) h)
  ]
  run-HaveOwner (register_a_vehicle env dto) =
      elim (Option-cases (lookup dto.org_id w.organizations)) [
        | inl absent ↦ quiet (run (register_a_vehicle env dto) w) (ground arith) (ground arith)
        | inr (o, found) ↦
            moved (run (register_a_vehicle env dto) w) w.organizations
              ((env.uuid 0, entered dto) ∷ w.vehicles) (ground arith) (ground arith)
              (ground arith, h)
      ]
  run-HaveOwner (amend_a_vehicle id dto) = elim (Option-cases (lookup id w.vehicles)) [
    | inl absent ↦ quiet (run (amend_a_vehicle id dto) w) (ground arith) (ground arith)
    | inr (v, found) ↦ elim (Bool-cases (is_stored dto.org_id w)) [
      | inr lost ↦ quiet (run (amend_a_vehicle id dto) w) (ground arith) (ground arith)
      | inl stored ↦
          moved (run (amend_a_vehicle id dto) w) w.organizations
            (modify id (amended_vehicle dto) w.vehicles) (ground arith) (ground arith)
            (amend-HaveOwner w.organizations id (amended_vehicle dto) w.vehicles
              (λ u owned. amended-owner dto.org_id u.org_id w stored owned) h)
    ]
  ]
  run-HaveOwner (remove id) = elim (Option-cases (lookup id w.organizations)) [
    | inl absent ↦ quiet (run (remove id) w) (ground arith) (ground arith)
    | inr (o, found) ↦ elim (Bool-cases (has_vehicles id w.vehicles)) [
      | inl used ↦ quiet (run (remove id) w) (ground arith) (ground arith)
      | inr free ↦
          moved (run (remove id) w) (erase id w.organizations) w.vehicles (ground arith)
            (ground arith) (unused-HaveOwner w.organizations id w.vehicles free h)
    ]
  ]
  run-HaveOwner (remove_a_vehicle id) = elim (Option-cases (lookup id w.vehicles)) [
    | inl absent ↦ quiet (run (remove_a_vehicle id) w) (ground arith) (ground arith)
    | inr (v, found) ↦
        moved (run (remove_a_vehicle id) w) w.organizations (erase id w.vehicles) (ground arith)
          (ground arith) (erase-HaveOwner w.organizations id w.vehicles h)
  ]
  run-HaveOwner (remove_a_service id) =
      quiet (run (remove_a_service id) w) (ground arith) (ground arith)
  run-HaveOwner (delete id) = quiet (run (delete id) w) (ground arith) (ground arith)
  run-HaveOwner (toggle_service id) =
      quiet (run (toggle_service id) w) (ground arith) (ground arith)

-- Over every sequence of the calls that write organizations, vehicles and services, refused ones
-- included, every vehicle is that of an organization that is stored, if it was so before.
pub run_all-HaveOwner :
    (calls : List FleetCall) (w : World)
    → HaveOwner w.organizations w.vehicles
    → HaveOwner (run_all calls w).organizations (run_all calls w).vehicles
unfolding run_all
run_all-HaveOwner [] w h = h
run_all-HaveOwner (c ∷ rest) w h = run_all-HaveOwner rest (run c w) (run-HaveOwner w h c)

find_many-lookup :
    (test : Vehicle → Bool) (k : ℕ) (v : Vehicle) (t : Table Vehicle)
    → IsKeyed t
    → lookup k (find_many test t) ≡ some v
    → (lookup k t ≡ some v) × (test v ≡ true)
unfolding find_many lookup
find_many-lookup test k v [] keyed h = cc
find_many-lookup test k v ((j, u) ∷ t) keyed h = ground (arith, find_many-lookup test k v t keyed.1)

-- A vehicle that the form offers for an organization passes the check of createDraft for that
-- organization.
pub get_org_vehicles-check_organization :
    (org id : ℕ) (w : World) (vs : Table Vehicle) (v : Vehicle)
    → IsKeyed w.vehicles
    → (get_org_vehicles org w).0 ≡ ok vs
    → lookup id vs ≡ some v
    → (check_organization (some org) (some id) w).0 ≡ ok tt
unfolding get_org_vehicles check_organization
get_org_vehicles-check_organization org id w vs v keyed offered there =
    elim (Bool-cases (is_active_organization (lookup org w.organizations))) [
      | inr closed ↦ ground arith
      | inl open_one ↦
          let same : find_many (is_offered org) w.vehicles ≡ vs = ground arith in
          ground (arith, find_many-lookup (is_offered org) id v w.vehicles keyed (rw same there))
    ]

-- So does the vehicle that it has just entered.
pub create_org_vehicle-check_organization :
    (env : Env) (org id : ℕ) (dto : CreateVehicleDto) (w : World)
    → (create_org_vehicle env org dto w).0 ≡ ok id
    → (check_organization (some org) (some id) (create_org_vehicle env org dto w).1).0 ≡ ok tt
unfolding create_org_vehicle check_organization
create_org_vehicle-check_organization env org id dto w done =
    elim (Option-cases (lookup org w.organizations)) [
      | inl absent ↦ ground arith
      | inr (o, found) ↦
          ground (arith, lookup-cons (env.uuid 0) id (new_vehicle org dto) w.vehicles)
    ]
