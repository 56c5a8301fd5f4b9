-- ===== src/Organizations.antt =====
-- src/admin/admin.service.ts and src/auth/webapp.service.ts: the organizations with their vehicles, the
-- services, and the vehicles that the form of a new order offers. A vehicle's year, colour and VIN,
-- and an organization's contact and way of payment, are not kept.
pub mod Registry
pub mod Calls
pub mod Vehicles
use ustabobo_bot.Base.{
  ℕ, Bool, true, false, not, ◌&&◌, Option, none, some, ◌∷◌, ◌==◌, or_else, if◌then◌else◌,
}
use ustabobo_bot.Base.Table.{Table, lookup, modify, find_many}
use ustabobo_bot.Base.Exec.{
  Exec, not_found, organization_missing, vehicle_missing, service_missing, pure, gets, put,
  or_throw, throw_if, ◌>>=◌, ◌>>◌,
}
use ustabobo_bot.Schema.{World, Env, Text, Organization, Vehicle, Service}
use ustabobo_bot.Text.{trim}

pub record CreateOrganizationDto : Type 0 where
  pub name : Text
  pub balance_due : Option ℕ

-- a field that is absent is not changed
pub record UpdateOrganizationDto : Type 0 where
  pub name : Option Text
  pub balance_due : Option ℕ

pub record CreateVehicleDto : Type 0 where
  pub plate_number : Text
  pub model : Text

pub record UpdateVehicleDto : Type 0 where
  pub plate_number : Option Text
  pub model : Option Text
  pub is_active : Option Bool

pub record CreateServiceDto : Type 0 where
  pub name : Text
  pub price : ℕ

pub record UpdateServiceDto : Type 0 where
  pub name : Option Text
  pub price : Option ℕ

abbrev pub put_organizations : (Table Organization → Table Organization) → Exec World (Unit {0})
put_organizations f = put (λ w. record w { organizations = f w.organizations })

abbrev pub put_vehicles : (Table Vehicle → Table Vehicle) → Exec World (Unit {0})
put_vehicles f = put (λ w. record w { vehicles = f w.vehicles })

abbrev pub put_services : (Table Service → Table Service) → Exec World (Unit {0})
put_services f = put (λ w. record w { services = f w.services })

-- `createOrganization`
abbrev pub new_organization : CreateOrganizationDto → Organization
new_organization dto = record {
  name = dto.name;
  balance_due = or_else dto.balance_due 0;
  is_active = true;
}

unfoldable pub create_organization : Env → CreateOrganizationDto → Exec World ℕ
create_organization env dto = do
  put_organizations (λ t. (env.uuid 0, new_organization dto) ∷ t)
  pure (env.uuid 0)

abbrev pub changed_organization : UpdateOrganizationDto → Organization → Organization
changed_organization dto o = record o {
  name = or_else dto.name o.name;
  balance_due = or_else dto.balance_due o.balance_due;
}

-- `updateOrganization`
unfoldable pub update_organization : ℕ → UpdateOrganizationDto → Exec World (Unit {0})
update_organization id dto = do
  found ← gets (λ w. lookup id w.organizations)
  or_throw found (not_found organization_missing)
  put_organizations (modify id (changed_organization dto))

-- `createVehicle` and `createOrgVehicle`
abbrev pub new_vehicle : ℕ → CreateVehicleDto → Vehicle
new_vehicle org dto = record {
  org_id = org;
  plate_number = trim dto.plate_number;
  model = trim dto.model;
  is_active = true;
}

unfoldable pub create_org_vehicle : Env → ℕ → CreateVehicleDto → Exec World ℕ
create_org_vehicle env org dto = do
  found ← gets (λ w. lookup org w.organizations)
  or_throw found (not_found organization_missing)
  put_vehicles (λ t. (env.uuid 0, new_vehicle org dto) ∷ t)
  pure (env.uuid 0)

abbrev pub changed_vehicle : UpdateVehicleDto → Vehicle → Vehicle
changed_vehicle dto v = record v {
  plate_number = or_else dto.plate_number v.plate_number;
  model = or_else dto.model v.model;
  is_active = or_else dto.is_active v.is_active;
}

-- `updateVehicle`
unfoldable pub update_vehicle : ℕ → UpdateVehicleDto → Exec World (Unit {0})
update_vehicle id dto = do
  found ← gets (λ w. lookup id w.vehicles)
  or_throw found (not_found vehicle_missing)
  put_vehicles (modify id (changed_vehicle dto))

-- `toggleVehicleActive`
unfoldable pub toggle_vehicle_active : ℕ → Exec World (Unit {0})
toggle_vehicle_active id = do
  found ← gets (λ w. lookup id w.vehicles)
  v ← or_throw found (not_found vehicle_missing)
  put_vehicles (modify id (λ u. record u { is_active = not v.is_active }))

-- `createService`
unfoldable pub create_service : Env → CreateServiceDto → Exec World ℕ
create_service env dto = do
  put_services
      (λ t. (env.uuid 0, record { name = dto.name; price = dto.price; is_active = true }) ∷ t)
  pure (env.uuid 0)

abbrev pub changed_service : UpdateServiceDto → Service → Service
changed_service dto s = record s {
  name = or_else dto.name s.name;
  price = or_else dto.price s.price;
}

-- `updateService`
unfoldable pub update_service : ℕ → UpdateServiceDto → Exec World (Unit {0})
update_service id dto = do
  found ← gets (λ w. lookup id w.services)
  or_throw found (not_found service_missing)
  put_services (modify id (changed_service dto))

-- `deleteService`: the row stays, since items of orders refer to it
unfoldable pub delete_service : ℕ → Exec World (Unit {0})
delete_service id = do
  found ← gets (λ w. lookup id w.services)
  or_throw found (not_found service_missing)
  put_services (modify id (λ s. record s { is_active = false }))

-- `toggleServiceActive`
unfoldable pub toggle_service_active : ℕ → Exec World (Unit {0})
toggle_service_active id = do
  found ← gets (λ w. lookup id w.services)
  s ← or_throw found (not_found service_missing)
  put_services (modify id (λ r. record r { is_active = not s.is_active }))

abbrev pub is_active_organization : Option Organization → Bool
is_active_organization none = false
is_active_organization (some o) = o.is_active

abbrev pub is_offered : ℕ → Vehicle → Bool
is_offered org v = v.org_id == org && v.is_active

-- `getOrgVehicles`, in the order of the rows
unfoldable pub get_org_vehicles : ℕ → Exec World (Table Vehicle)
get_org_vehicles org = do
  found ← gets (λ w. lookup org w.organizations)
  throw_if (not (is_active_organization found)) (not_found organization_missing)
  gets (λ w. find_many (is_offered org) w.vehicles)
