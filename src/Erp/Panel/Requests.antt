-- ===== src/Erp/Panel/Requests.antt =====
-- A request of the administration, from the proxy through the guards to its operation.
use ustabobo_bot.Base.{
  not, ◌&&◌, ◌≡◌, refl, sym, subst, Bool, true, false, Option, none, some, [], ◌∷◌, ◌⊎◌, inl, inr,
  arith, Option-cases,
}
use ustabobo_bot.Base.Table.{lookup, IsKeyed}
use ustabobo_bot.Base.Exec.{ok, err}
use ustabobo_bot.Schema.{World, Text}
use ustabobo_bot.Auth.{refresh}
use ustabobo_bot.Auth.Guards.{Gate, Outcome, Identity, jwt_auth, admit_request}
use ustabobo_bot.Auth.Guards.Entry.{IsEntitled, admit_request-IsEntitled}
use ustabobo_bot.Organizations.{
  create_organization, update_organization, create_org_vehicle, update_vehicle,
  toggle_vehicle_active, create_service, update_service, delete_service, toggle_service_active,
}
use ustabobo_bot.Erp.{Request, Reply, Cookies, proxy}
use ustabobo_bot.Erp.Proxy.{IsGuarded, IsOnce, proxy-IsOnce}
use ustabobo_bot.Erp.Panel.{
  Operation, enter_organization, change_organization, enter_vehicle, change_vehicle, toggle_vehicle,
  enter_service, change_service, delete, toggle_service, operate, perform, respond, admitted, sent,
  panel, with_header, panel_route,
}

-- an operation that is answered by 401 has written nothing
operate-refused :
    (op : Operation) (w : World) → (operate op w).0.status ≡ 401 → (operate op w).1 ≡ w
unfolding operate create_organization update_organization create_org_vehicle update_vehicle
    toggle_vehicle_active create_service update_service delete_service toggle_service_active
operate-refused (enter_organization env dto) w h = absurd (omega arith)
operate-refused (change_organization id dto) w h = elim (Option-cases (lookup id w.organizations)) [
  | inl absent ↦ rw absent refl
  | inr (o, found) ↦ absurd (ground arith)
]
operate-refused (enter_vehicle env org dto) w h = elim (Option-cases (lookup org w.organizations)) [
  | inl absent ↦ rw absent refl
  | inr (o, found) ↦ absurd (ground arith)
]
operate-refused (change_vehicle id dto) w h = elim (Option-cases (lookup id w.vehicles)) [
  | inl absent ↦ rw absent refl
  | inr (v, found) ↦ absurd (ground arith)
]
operate-refused (toggle_vehicle id) w h = elim (Option-cases (lookup id w.vehicles)) [
  | inl absent ↦ rw absent refl
  | inr (v, found) ↦ absurd (ground arith)
]
operate-refused (enter_service env dto) w h = absurd (omega arith)
operate-refused (change_service id dto) w h = elim (Option-cases (lookup id w.services)) [
  | inl absent ↦ rw absent refl
  | inr (s, found) ↦ absurd (ground arith)
]
operate-refused (delete id) w h = elim (Option-cases (lookup id w.services)) [
  | inl absent ↦ rw absent refl
  | inr (s, found) ↦ absurd (ground arith)
]
operate-refused (toggle_service id) w h = elim (Option-cases (lookup id w.services)) [
  | inl absent ↦ rw absent refl
  | inr (s, found) ↦ absurd (ground arith)
]

module _ (compare : Text → Text → Bool) (g : Gate) (operation_of : Request → Option Operation)
    (rereads : Bool) where
  perform-refused :
      (op : Option Operation) (w : World)
      → (perform compare g operation_of rereads op w).0.status ≡ 401
      → (perform compare g operation_of rereads op w).1 ≡ w
  perform-refused none w h = refl
  perform-refused (some op) w h = operate-refused op w h

  admitted-refused :
      (a : Outcome) (op : Option Operation) (w : World)
      → (admitted compare g operation_of rereads a op w).0.status ≡ 401
      → (admitted compare g operation_of rereads a op w).1 ≡ w
  admitted-refused (err e) op w h = refl
  admitted-refused (ok who) op w h = perform-refused op w h

  refresh-same : (token : Text) (w : World) → (refresh compare g.jwt g.now token w).1 ≡ w
  unfolding refresh
  refresh-same token w = ground arith

  sent-refused :
      (throws : Bool) (x : Reply × World) (w : World) (reply : Reply)
      → (x.0.status ≡ 401 → x.1 ≡ w)
      → (sent compare g operation_of rereads throws x w).0 ≡ some reply
      → reply.status ≡ 401
      → (sent compare g operation_of rereads throws x w).1 ≡ w
  sent-refused true x w reply same reached expired = refl
  sent-refused false x w reply same reached expired = same (ground arith)

  panel-IsGuarded : IsGuarded (panel compare g operation_of rereads)
  unfolding respond
  panel-IsGuarded = record {
    unchanged = λ used token r w reply reached expired.
        sent-refused (used && not rereads) (respond compare g operation_of rereads token r w) w
          reply
          (admitted-refused (admit_request g panel_route (with_header token) w) (operation_of r) w)
          reached expired;
    renewal = λ token w. refresh-same token w;
  }

  -- the operation of the request has been performed, once, for an active boss
  pub record IsPerformed (r : Request) (w w' : World) : Type 0 where
    pub op : Operation
    pub is_his : operation_of r ≡ some op
    pub who : Option Identity
    pub entitled : IsEntitled w panel_route who
    pub performed : w' ≡ (operate op w).1

  perform-IsPerformed :
      (who : Option Identity) (r : Request) (w : World)
      → IsEntitled w panel_route who
      → ((perform compare g operation_of rereads (operation_of r) w).1 ≡ w)
        ⊎ IsPerformed r w (perform compare g operation_of rereads (operation_of r) w).1
  perform-IsPerformed who r w entitled = elim (Option-cases (operation_of r)) [
    | inl unknown ↦ rw unknown (inl refl)
    | inr (op, known) ↦ inr (record {
      op = op;
      is_his = known;
      who = who;
      entitled = entitled;
      performed = rw known refl;
    })
  ]

  admitted-IsPerformed :
      (a : Outcome) (r : Request) (w : World)
      → ((who : Option Identity) → a ≡ ok who → IsEntitled w panel_route who)
      → ((admitted compare g operation_of rereads a (operation_of r) w).1 ≡ w)
        ⊎ IsPerformed r w (admitted compare g operation_of rereads a (operation_of r) w).1
  admitted-IsPerformed (err e) r w entitled = inl refl
  admitted-IsPerformed (ok who) r w entitled = perform-IsPerformed who r w (entitled who refl)

  sent-IsPerformed :
      (throws : Bool) (x : Reply × World) (r : Request) (w : World)
      → (x.1 ≡ w) ⊎ IsPerformed r w x.1
      → ((sent compare g operation_of rereads throws x w).1 ≡ w)
        ⊎ IsPerformed r w (sent compare g operation_of rereads throws x w).1
  sent-IsPerformed true x r w h = inl refl
  sent-IsPerformed false x r w h = h

  respond-IsPerformed :
      (used : Bool) (token : Option Text) (r : Request) (w : World)
      → IsKeyed w.users
      → (((panel compare g operation_of rereads).answer used token r w).1 ≡ w)
        ⊎ IsPerformed r w ((panel compare g operation_of rereads).answer used token r w).1
  unfolding respond
  respond-IsPerformed used token r w keyed =
      sent-IsPerformed (used && not rereads) (respond compare g operation_of rereads token r w) r w
        (admitted-IsPerformed (admit_request g panel_route (with_header token) w) r w
          (λ who admitted.
            admit_request-IsEntitled g (with_header token) w keyed panel_route (jwt_auth ∷ []) who
              refl refl admitted))

  once :
      (r : Request) (w w' : World)
      → IsKeyed w.users
      → IsOnce (panel compare g operation_of rereads) r w w'
      → (w' ≡ w) ⊎ IsPerformed r w w'
  once r w w' keyed (inl same) = inl same
  once r w w' keyed (inr (used, token, e)) =
      subst (λ v. (v ≡ w) ⊎ IsPerformed r w v) (sym e) (respond-IsPerformed used token r w keyed)

  -- A request to the proxy, before the controllers of organizations, vehicles and services: also where
  -- the proxy renews the token and sends the request again, the stored data stay as they are, or the
  -- operation of the request is performed once, for an active boss. The stored users have different ids.
  pub proxy-IsPerformed :
      (r : Request) (c : Cookies) (w : World)
      → IsKeyed w.users
      → ((proxy (panel compare g operation_of rereads) r c w).1 ≡ w)
        ⊎ IsPerformed r w (proxy (panel compare g operation_of rereads) r c w).1
  proxy-IsPerformed r c w keyed =
      once r w (proxy (panel compare g operation_of rereads) r c w).1 keyed
        (proxy-IsOnce (panel compare g operation_of rereads) panel-IsGuarded r c w)
