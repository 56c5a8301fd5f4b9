-- ===== src/Organizations/Calls.antt =====
-- The calls that write organizations, vehicles and services, and the organization of each vehicle.
use ustabobo_bot.Base.{
  ℕ, ◌≡◌, ◌≢◌, true, Option, none, some, or_else, false, List, [], ◌∷◌, ◌==◌, is_some, arith,
  Bool-cases, inl, inr,
}
use ustabobo_bot.Base.Table.{Table, lookup, modify, erase, lookup-erase, AllRows, AllRows-map}
use ustabobo_bot.Schema.{World, Env, Organization, Vehicle}
use ustabobo_bot.Organizations.Registry
use ustabobo_bot.Organizations.Registry.{
  register_organization, amend_organization, register_vehicle, amend_vehicle, remove_organization,
  remove_vehicle, remove_service, registered, amended, entered, amended_vehicle, has_vehicles,
  is_stored,
}
use ustabobo_bot.Organizations.{
  CreateOrganizationDto, UpdateOrganizationDto, CreateVehicleDto, UpdateVehicleDto,
  CreateServiceDto, UpdateServiceDto, create_organization, update_organization, create_org_vehicle,
  update_vehicle, toggle_vehicle_active, create_service, update_service, delete_service,
  toggle_service_active,
}

pub data FleetCall : Type 0 where
  enter : Env → CreateOrganizationDto → FleetCall
  change : ℕ → UpdateOrganizationDto → FleetCall
  enter_vehicle : Env → ℕ → CreateVehicleDto → FleetCall
  change_vehicle : ℕ → UpdateVehicleDto → FleetCall
  toggle_vehicle : ℕ → FleetCall
  enter_service : Env → CreateServiceDto → FleetCall
  change_service : ℕ → UpdateServiceDto → FleetCall
  delete toggle_service : ℕ → FleetCall
  register : Env → Registry.CreateOrganizationDto → FleetCall
  amend : ℕ → Registry.UpdateOrganizationDto → FleetCall
  register_a_vehicle : Env → Registry.CreateVehicleDto → FleetCall
  amend_a_vehicle : ℕ → Registry.UpdateVehicleDto → FleetCall
  remove remove_a_vehicle remove_a_service : ℕ → FleetCall

-- the state after a call, whether it returned or threw
unfoldable pub run : FleetCall → World → World
run (enter env dto) w = (create_organization env dto w).1
run (change id dto) w = (update_organization id dto w).1
run (enter_vehicle env org dto) w = (create_org_vehicle env org dto w).1
run (change_vehicle id dto) w = (update_vehicle id dto w).1
run (toggle_vehicle id) w = (toggle_vehicle_active id w).1
run (enter_service env dto) w = (create_service env dto w).1
run (change_service id dto) w = (update_service id dto w).1
run (delete id) w = (delete_service id w).1
run (toggle_service id) w = (toggle_service_active id w).1
run (register env dto) w = (register_organization env dto w).1
run (amend id dto) w = (amend_organization id dto w).1
run (register_a_vehicle env dto) w = (register_vehicle env dto w).1
run (amend_a_vehicle id dto) w = (amend_vehicle id dto w).1
run (remove id) w = (remove_organization id w).1
run (remove_a_vehicle id) w = (remove_vehicle id w).1
run (remove_a_service id) w = (remove_service id w).1

unfoldable pub run_all : List FleetCall → World → World
run_all [] w = w
run_all (c ∷ rest) w = run_all rest (run c w)

-- every vehicle is that of a stored organization
abbrev pub HaveOwner : Table Organization → Table Vehicle → Type 0
HaveOwner orgs = AllRows (λ v. is_some (lookup v.org_id orgs) ≡ true)

pub kept :
    (orgs orgs' : Table Organization) (vs : Table Vehicle)
    → ((j : ℕ) → is_some (lookup j orgs) ≡ true → is_some (lookup j orgs') ≡ true)
    → HaveOwner orgs vs
    → HaveOwner orgs' vs
kept orgs orgs' vs f h = AllRows-map (λ v. f v.org_id) vs h

pub modify-HaveOwner :
    (orgs : Table Organization) (id : ℕ) (f : Vehicle → Vehicle) (vs : Table Vehicle)
    → ((v : Vehicle) → (f v).org_id ≡ v.org_id)
    → HaveOwner orgs vs
    → HaveOwner orgs (modify id f vs)
unfolding modify
modify-HaveOwner orgs id f [] same h = tt
modify-HaveOwner orgs id f ((k, v) ∷ vs) same h = elim (Bool-cases (k == id)) [
  | inl hit ↦ rw hit (rw (same v) h.0, h.1)
  | inr miss ↦ rw miss (h.0, modify-HaveOwner orgs id f vs same h.1)
]

-- an update that moves a vehicle to a stored organization only
pub amend-HaveOwner :
    (orgs : Table Organization) (id : ℕ) (f : Vehicle → Vehicle) (vs : Table Vehicle)
    → ((v : Vehicle)
        → is_some (lookup v.org_id orgs) ≡ true
        → is_some (lookup (f v).org_id orgs) ≡ true)
    → HaveOwner orgs vs
    → HaveOwner orgs (modify id f vs)
unfolding modify
amend-HaveOwner orgs id f [] owned h = tt
amend-HaveOwner orgs id f ((k, v) ∷ vs) owned h = elim (Bool-cases (k == id)) [
  | inl hit ↦ rw hit (owned v h.0, h.1)
  | inr miss ↦ rw miss (h.0, amend-HaveOwner orgs id f vs owned h.1)
]

pub erase-HaveOwner :
    (orgs : Table Organization) (id : ℕ) (vs : Table Vehicle)
    → HaveOwner orgs vs
    → HaveOwner orgs (erase id vs)
unfolding erase
erase-HaveOwner orgs id [] h = tt
erase-HaveOwner orgs id ((k, v) ∷ vs) h = elim (Bool-cases (k == id)) [
  | inl hit ↦ rw hit h.1
  | inr miss ↦ rw miss (h.0, erase-HaveOwner orgs id vs h.1)
]

-- an organization without vehicles can go
pub unused-HaveOwner :
    (orgs : Table Organization) (id : ℕ) (vs : Table Vehicle)
    → has_vehicles id vs ≡ false
    → HaveOwner orgs vs
    → HaveOwner (erase id orgs) vs
unfolding has_vehicles
unused-HaveOwner orgs id [] free h = tt
unused-HaveOwner orgs id ((k, v) ∷ vs) free h = elim (Bool-cases (v.org_id == id)) [
  | inl hit ↦ ground arith
  | inr other ↦
      let apart : id ≢ v.org_id = ground arith in
      (rw (lookup-erase id v.org_id orgs apart) h.0, unused-HaveOwner orgs id vs (ground arith) h.1)
]

pub moved :
    (w' : World) (orgs : Table Organization) (vs : Table Vehicle)
    → w'.organizations ≡ orgs
    → w'.vehicles ≡ vs
    → HaveOwner orgs vs
    → HaveOwner w'.organizations w'.vehicles
moved w' orgs vs e f h = rw (e, f) h

pub amended-owner :
    (changed : Option ℕ) (org : ℕ) (w : World)
    → is_stored changed w ≡ true
    → is_some (lookup org w.organizations) ≡ true
    → is_some (lookup (or_else changed org) w.organizations) ≡ true
amended-owner none org w stored owned = owned
amended-owner (some other) org w stored owned = stored
