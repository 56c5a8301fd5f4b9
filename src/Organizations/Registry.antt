-- ===== src/Organizations/Registry.antt =====
-- src/organizations/organizations.service.ts, src/vehicles/vehicles.service.ts and
-- src/services/services.service.ts: create, update and remove, with the foreign keys of
-- prisma/schema.prisma on a removal.
use ustabobo_bot.Base.{
  ℕ, Bool, true, false, not, ◌||◌, Option, none, some, [], ◌∷◌, ◌==◌, or_else, if◌then◌else◌, holds,
  is_some,
}
use ustabobo_bot.Base.Table.{Table, lookup, modify, erase}
use ustabobo_bot.Base.Exec.{
  Exec, not_found, organization_missing, vehicle_missing, service_missing, foreign_key_violation,
  pure, gets, put, or_throw, throw_if, ◌>>=◌, ◌>>◌,
}
use ustabobo_bot.Schema.{World, Env, Text, Organization, Vehicle, Order, OrderItem}
use ustabobo_bot.Organizations.{put_organizations, put_vehicles}

-- OrganizationsService
pub record CreateOrganizationDto : Type 0 where
  pub name : Text
  pub balance_due : Option ℕ
  pub is_active : Option Bool

pub record UpdateOrganizationDto : Type 0 where
  pub name : Option Text
  pub balance_due : Option ℕ
  pub is_active : Option Bool

abbrev pub registered : CreateOrganizationDto → Organization
registered dto = record {
  name = dto.name;
  balance_due = or_else dto.balance_due 0;
  is_active = or_else dto.is_active true;
}

unfoldable pub register_organization : Env → CreateOrganizationDto → Exec World ℕ
register_organization env dto = do
  put_organizations (λ t. (env.uuid 0, registered dto) ∷ t)
  pure (env.uuid 0)

abbrev pub amended : UpdateOrganizationDto → Organization → Organization
amended dto o = record {
  name = or_else dto.name o.name;
  balance_due = or_else dto.balance_due o.balance_due;
  is_active = or_else dto.is_active o.is_active;
}

unfoldable pub amend_organization : ℕ → UpdateOrganizationDto → Exec World (Unit {0})
amend_organization id dto = do
  found ← gets (λ w. lookup id w.organizations)
  or_throw found (not_found organization_missing)
  put_organizations (modify id (amended dto))

-- a vehicle keeps its organization from being deleted
unfoldable pub has_vehicles : ℕ → Table Vehicle → Bool
has_vehicles org [] = false
has_vehicles org ((_, v) ∷ t) = v.org_id == org || has_vehicles org t

-- `onDelete: SetNull` of the column in the orders
abbrev pub null_if : ℕ → Option ℕ → Option ℕ
null_if id o = if holds id o then none else o

unfoldable pub without_organization : ℕ → Table Order → Table Order
without_organization id [] = []
without_organization id ((k, o) ∷ t) =
    (k, record o { organization_id = null_if id o.organization_id }) ∷ without_organization id t

unfoldable pub remove_organization : ℕ → Exec World (Unit {0})
remove_organization id = do
  found ← gets (λ w. lookup id w.organizations)
  or_throw found (not_found organization_missing)
  used ← gets (λ w. has_vehicles id w.vehicles)
  throw_if used foreign_key_violation
  put (λ w. record w {
    organizations = erase id w.organizations;
    orders = without_organization id w.orders;
  })

-- VehiclesService
pub record CreateVehicleDto : Type 0 where
  pub org_id : ℕ
  pub plate_number : Text
  pub model : Text
  pub is_active : Option Bool

pub record UpdateVehicleDto : Type 0 where
  pub org_id : Option ℕ
  pub plate_number : Option Text
  pub model : Option Text
  pub is_active : Option Bool

abbrev pub entered : CreateVehicleDto → Vehicle
entered dto = record {
  org_id = dto.org_id;
  plate_number = dto.plate_number;
  model = dto.model;
  is_active = or_else dto.is_active true;
}

unfoldable pub register_vehicle : Env → CreateVehicleDto → Exec World ℕ
register_vehicle env dto = do
  found ← gets (λ w. lookup dto.org_id w.organizations)
  or_throw found (not_found organization_missing)
  put_vehicles (λ t. (env.uuid 0, entered dto) ∷ t)
  pure (env.uuid 0)

abbrev pub amended_vehicle : UpdateVehicleDto → Vehicle → Vehicle
amended_vehicle dto v = record {
  org_id = or_else dto.org_id v.org_id;
  plate_number = or_else dto.plate_number v.plate_number;
  model = or_else dto.model v.model;
  is_active = or_else dto.is_active v.is_active;
}

-- the organization that is named is there
abbrev pub is_stored : Option ℕ → World → Bool
is_stored none w = true
is_stored (some org) w = is_some (lookup org w.organizations)

unfoldable pub amend_vehicle : ℕ → UpdateVehicleDto → Exec World (Unit {0})
amend_vehicle id dto = do
  found ← gets (λ w. lookup id w.vehicles)
  or_throw found (not_found vehicle_missing)
  stored ← gets (is_stored dto.org_id)
  throw_if (not stored) (not_found organization_missing)
  put_vehicles (modify id (amended_vehicle dto))

unfoldable pub without_vehicle : ℕ → Table Order → Table Order
without_vehicle id [] = []
without_vehicle id ((k, o) ∷ t) =
    (k, record o { vehicle_id = null_if id o.vehicle_id }) ∷ without_vehicle id t

unfoldable pub remove_vehicle : ℕ → Exec World (Unit {0})
remove_vehicle id = do
  found ← gets (λ w. lookup id w.vehicles)
  or_throw found (not_found vehicle_missing)
  put (λ w. record w { vehicles = erase id w.vehicles; orders = without_vehicle id w.orders })

-- ServicesService; its create and update are those of the administration
unfoldable pub without_service : ℕ → Table OrderItem → Table OrderItem
without_service id [] = []
without_service id ((k, i) ∷ t) =
    (k, record i { service_id = null_if id i.service_id }) ∷ without_service id t

unfoldable pub remove_service : ℕ → Exec World (Unit {0})
remove_service id = do
  found ← gets (λ w. lookup id w.services)
  or_throw found (not_found service_missing)
  put (λ w. record w {
    services = erase id w.services;
    order_items = without_service id w.order_items;
  })
