-- ===== src/Erp/Panel.antt =====
-- The proxy of erp/app/api/backend before the back end of src: the guards of the administration's
-- controllers, the operations of src/admin/admin.service.ts on organizations, vehicles and services, and
-- login and refresh of src/auth/auth.service.ts. How the framework finds the operation of a request and
-- reads its body is a parameter, and so is whether the platform's `fetch` sends a body that an earlier
-- call has read (`rereads`): where it does not, it throws.
pub mod Requests
pub mod Renewed
use ustabobo_bot.Base.{ℕ, not, ◌&&◌, Bool, true, false, Option, none, some, List, [], ◌∷◌, ◌++◌}
use ustabobo_bot.Base.Exec.{
  Result, ok, err, Error, bad_request, not_found, forbidden, conflict, unauthorized,
  unique_violation, record_missing, foreign_key_violation, internal_error,
}
use ustabobo_bot.Schema.{World, Env, Text, boss}
use ustabobo_bot.Text.{codes}
use ustabobo_bot.Auth.{TokenResponse, AccessResponse, sign_in, refresh}
use ustabobo_bot.Auth.Guards.{HttpRequest, Route, Gate, Outcome, jwt_auth, roles, admit_request}
use ustabobo_bot.Organizations.{
  CreateOrganizationDto, UpdateOrganizationDto, CreateVehicleDto, UpdateVehicleDto,
  CreateServiceDto, UpdateServiceDto, create_organization, update_organization, create_org_vehicle,
  update_vehicle, toggle_vehicle_active, create_service, update_service, delete_service,
  toggle_service_active,
}
use ustabobo_bot.Erp.{Request, Reply, Backend, SignIn, Renewal, refused, tokens, renewed}

-- the operations behind the three controllers
pub data Operation : Type 0 where
  enter_organization : Env → CreateOrganizationDto → Operation
  change_organization : ℕ → UpdateOrganizationDto → Operation
  enter_vehicle : Env → ℕ → CreateVehicleDto → Operation
  change_vehicle : ℕ → UpdateVehicleDto → Operation
  toggle_vehicle : ℕ → Operation
  enter_service : Env → CreateServiceDto → Operation
  change_service : ℕ → UpdateServiceDto → Operation
  delete toggle_service : ℕ → Operation

-- the status of an exception; those of the database come out as 500
abbrev pub status_of : Error → ℕ
status_of (bad_request _) = 400
status_of (not_found _) = 404
status_of (forbidden _) = 403
status_of (conflict _) = 409
status_of (unauthorized _) = 401
status_of unique_violation = 500
status_of record_missing = 500
status_of foreign_key_violation = 500
status_of internal_error = 500

-- what is written into a reply is not kept
abbrev pub reply_with : ℕ → Reply
reply_with status = record { status = status; text = [] }

abbrev pub reply_of {ℓ} : {A : Type ℓ} → Result A × World → Reply × World
reply_of (ok _, w) = (reply_with 200, w)
reply_of (err e, w) = (reply_with (status_of e), w)

unfoldable pub operate : Operation → World → Reply × World
operate (enter_organization env dto) w = reply_of (create_organization env dto w)
operate (change_organization id dto) w = reply_of (update_organization id dto w)
operate (enter_vehicle env org dto) w = reply_of (create_org_vehicle env org dto w)
operate (change_vehicle id dto) w = reply_of (update_vehicle id dto w)
operate (toggle_vehicle id) w = reply_of (toggle_vehicle_active id w)
operate (enter_service env dto) w = reply_of (create_service env dto w)
operate (change_service id dto) w = reply_of (update_service id dto w)
operate (delete id) w = reply_of (delete_service id w)
operate (toggle_service id) w = reply_of (toggle_service_active id w)

-- `@UseGuards(JwtAuthGuard, RolesGuard) @Roles(Role.boss)` of the three controllers
abbrev pub panel_route : Route
panel_route = record {
  is_public = false;
  required_roles = boss ∷ [];
  guards = jwt_auth ∷ roles ∷ [];
}

-- the header that the proxy sets
abbrev pub bearer : Option Text → Option Text
bearer none = none
bearer (some token) = some (codes "Bearer " ++ token)

abbrev pub with_header : Option Text → HttpRequest
with_header token = record {
  is_options = false;
  is_telegraf = false;
  authorization = bearer token;
  init_data = none;
}

module _ (compare : Text → Text → Bool) (g : Gate) (operation_of : Request → Option Operation)
    (rereads : Bool) where
  abbrev pub perform : Option Operation → World → Reply × World
  perform none w = (reply_with 404, w)
  perform (some op) w = operate op w

  abbrev pub admitted : Outcome → Option Operation → World → Reply × World
  admitted (err e) op w = (reply_with (status_of e), w)
  admitted (ok _) op w = perform op w

  unfoldable pub respond : Option Text → Request → World → Reply × World
  unfolding admit_request operate
  respond token r w =
      admitted (admit_request g panel_route (with_header token) w) (operation_of r) w

  abbrev pub signed : Result TokenResponse → SignIn
  signed (ok t) = tokens (some t.access_token) (some t.refresh_token)
  signed (err e) = refused (status_of e)

  abbrev pub renewal : Result AccessResponse → Renewal
  renewal (ok t) = renewed (some t.access_token)
  renewal (err e) = refused (status_of e)

  -- what comes of a call of `fetch`, and whether it throws before the request leaves
  abbrev pub sent : Bool → Reply × World → World → Option Reply × World
  sent true x w = (none, w)
  sent false x w = (some x.0, x.1)

  abbrev pub panel : Backend World
  panel = record {
    sign_in = λ login password w. (
      signed (sign_in compare g.jwt g.now login password w).0,
      (sign_in compare g.jwt g.now login password w).1,
    );
    renew = λ token w.
        (renewal (refresh compare g.jwt g.now token w).0, (refresh compare g.jwt g.now token w).1);
    answer = λ used token r w. sent (used && not rereads) (respond token r w) w;
  }
