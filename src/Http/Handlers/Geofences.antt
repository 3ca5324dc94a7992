-- ===== src/Http/Handlers/Geofences.antt =====
-- GeofencesHandler and GeofenceByIDHandler of internal/api/handlers.go.
use usps_main.Common.{String, not, pos, str_eq, if◌then◌else◌}
use usps_main.Common.Text.{has_prefix, trim_prefix}
use usps_main.Api.Principal.{Principal}
use usps_main.Http.Backend.{Backend}
use usps_main.Http.Act.{
  Request, Response, Web, Act, ◌>>=◌, reply, write_problem, require, call, or_problem, tenant_of,
  int_param, principal, geofence, geofences, empty,
}
use usps_main.Http.Handlers.Plans.{is_planner}

module _ {S : Type 0} (api : Backend S) (web : Web) where
  -- The test that each case makes first.
  abbrev pub for_planner : Principal → Request → Act S Response → Act S Response
  for_planner pr r k =
      require (is_planner pr) (write_problem 403 "Forbidden" "dispatcher or admin required" r) k

  unfoldable pub geofences_get : Request → Act S Response
  geofences_get r = do
    listed ←
        call
          (api.list_geofences (tenant_of r) (r.query "cursor") (int_param web "limit" (pos 100) r))
    or_problem 500 "List geofences failed" r listed λ out. reply 200 (geofences out.0 out.1)

  unfoldable pub geofences_post : Request → Act S Response
  geofences_post r = or_problem 400 "Invalid JSON" r (web.decode_geofence r.body) λ input. do
    made ← call (api.create_geofence (tenant_of r) input)
    or_problem 500 "Create geofence failed" r made λ gf. reply 201 (geofence gf)

  unfoldable pub geofences_handler : Request → Act S Response
  unfolding principal geofences_get geofences_post
  geofences_handler r = do
    pr ← principal web r
    if str_eq r.method "GET"
        then for_planner pr r (geofences_get r)
        else if str_eq r.method "POST"
        then for_planner pr r (geofences_post r)
        else reply 405 empty

  unfoldable pub geofence_get : Request → String → Act S Response
  geofence_get r id = do
    got ← call (api.get_geofence (tenant_of r) id)
    or_problem 404 "Not Found" r got λ gf. reply 200 (geofence gf)

  unfoldable pub geofence_patch : Request → String → Act S Response
  geofence_patch r id = or_problem 400 "Invalid JSON" r (web.decode_geofence r.body) λ input. do
    made ← call (api.patch_geofence (tenant_of r) id input)
    or_problem 500 "Update geofence failed" r made λ gf. reply 200 (geofence gf)

  unfoldable pub geofence_delete : Request → String → Act S Response
  geofence_delete r id = do
    gone ← call (api.delete_geofence (tenant_of r) id)
    or_problem 500 "Delete geofence failed" r gone λ _. reply 204 empty

  unfoldable pub geofence_by_id : Request → String → Act S Response
  unfolding principal geofence_get geofence_patch geofence_delete
  geofence_by_id r id = do
    pr ← principal web r
    if str_eq r.method "GET"
        then for_planner pr r (geofence_get r id)
        else if str_eq r.method "PATCH"
        then for_planner pr r (geofence_patch r id)
        else if str_eq r.method "DELETE"
        then for_planner pr r (geofence_delete r id)
        else reply 405 empty

  unfoldable pub geofence_by_id_handler : Request → Act S Response
  unfolding has_prefix trim_prefix geofence_by_id
  geofence_by_id_handler r =
      if not (has_prefix r.path "/v1/geofences/")
      then write_problem 404 "Not Found" "" r
      else geofence_by_id r (trim_prefix r.path "/v1/geofences/")
