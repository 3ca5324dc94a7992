-- ===== src/Http/Handlers/Misc.antt =====
-- MediaPresignHandler, HealthHandler and ReadyHandler of internal/api/handlers.go, and the queries of
-- internal/api/graphql_http.go.
use Prim.Native.String.{◌++◌ as text_append}
use usps_main.Common.{String, ℕ, ◌+◌, ◌*◌, Option, none, some, not, pos, str_eq, if◌then◌else◌}
use usps_main.Common.Maps.{Map, lookup}
use usps_main.Common.Text.{contains}
use usps_main.Model.{Any, text}
use usps_main.Http.Backend.{Backend, Op}
use usps_main.Http.Act.{
  Request, Response, Web, Act, ◌>>=◌, reply, write_problem, call, or_problem, tenant_of, upload,
  status_is, route, routes, empty,
}

-- A quarter of an hour, in nanoseconds.
abbrev pub quarter : ℕ
quarter = 15 * 60 * 1_000_000_000

module _ {S : Type 0} (api : Backend S) (web : Web) where
  unfoldable pub media_presign_handler : Request → Act S Response
  media_presign_handler r =
      if not (str_eq r.method "POST")
      then reply 405 empty
      else (or_problem 400 "Invalid JSON" r (web.decode_presign r.body) λ input. reply 200 (
          upload (text_append "https://upload.example/" (text_append input.file_name "?token=demo"))
            input.content_type (web.format (web.now + quarter))))

  unfoldable pub health_handler : Request → Act S Response
  health_handler r = reply 200 (status_is "ok")

  unfoldable pub ready_with : Request → Option (Op S (Unit {0})) → Act S Response
  ready_with r none = reply 200 (status_is "ready")
  ready_with r (some ping) = do
    got ← call ping
    or_problem 503 "Not Ready" r got λ _. reply 200 (status_is "ready")

  unfoldable pub ready_handler : Request → Act S Response
  unfolding ready_with
  ready_handler r = ready_with r api.ping

  -- `if v, ok := body.Variables["id"].(string); ok { id = v }`.
  unfoldable pub variable : String → Map Any → String
  variable k m = elim (lookup k m) [ none ↦ "" | some v ↦ elim v [ text s ↦ s | _ ↦ "" ] ]

  unfoldable pub query_route : Request → String → Act S Response
  query_route r id = if str_eq id "" then write_problem 400 "Missing id" "" r else do
    got ← call (api.get_route (tenant_of r) id)
    or_problem 404 "Not Found" r got λ rt. reply 200 (route rt)

  unfoldable pub query_routes : Request → Act S Response
  query_routes r = do
    listed ← call (api.list_routes (tenant_of r) "" (pos 100))
    or_problem 500 "List routes failed" r listed λ out. reply 200 (routes out.0 out.1)

  unfoldable pub graphql_http_handler : Request → Act S Response
  unfolding variable query_route query_routes contains
  graphql_http_handler r =
      if not (str_eq r.method "POST")
      then reply 405 empty
      else (or_problem 400 "Invalid JSON" r (web.decode_query r.body) λ given.
          if contains (web.to_lower given.0) "route("
          then query_route r (variable "id" given.1)
          else if contains (web.to_lower given.0) "routes"
          then query_routes r
          else write_problem 400 "Unsupported query" "" r)
