-- ===== src/Store/Geofences.antt =====
-- The geofence methods of internal/store/memory.go.
pub mod Tenants
use usps_main.Common.{
  String, true, zero, Option, none, some, List, [], ◌∷◌, ◌++◌, not, ℤ, pos, str_eq, if◌then◌else◌,
  keep,
}
use usps_main.Common.Maps.{lookup, index, insert, delete}
use usps_main.Model.{Geofence, GeofenceInput}
use usps_main.Store.{Memory, not_found}
use usps_main.Store.Page.{page}
use usps_main.Store.Routes.{Result, ok, err}

abbrev pub zero_geofence : Geofence
zero_geofence = record {
  id = "";
  tenant_id = "";
  name = "";
  kind = "";
  radius_m = pos 0;
  center = none;
  rules = none;
}

abbrev pub geofence_of : String → String → GeofenceInput → Geofence
geofence_of id tenant input = record {
  id = id;
  tenant_id = tenant;
  name = input.name;
  kind = input.kind;
  radius_m = input.radius_m;
  center = input.center;
  rules = input.rules;
}

unfoldable pub create_geofence : Memory → String → String → GeofenceInput → Memory × Geofence
create_geofence m id tenant input =
    let gf = geofence_of id tenant input in
    (
      record m {
        gfs = insert id gf m.gfs;
        gfs_ten = insert tenant (index [] tenant m.gfs_ten ++ id ∷ []) m.gfs_ten;
      },
      gf,
    )

unfoldable pub list_geofences : Memory → String → String → ℤ → List Geofence × String
list_geofences m tenant cursor limit =
    page (λ id. index zero_geofence id m.gfs) (λ _. true) (index [] tenant m.gfs_ten) cursor limit

-- `gf, ok := m.gfs[id]; if !ok || gf.TenantID != tenantID { return …, ErrNotFound }`.
unfoldable pub get_geofence : Memory → String → String → Result Geofence
get_geofence m tenant id = elim (lookup id m.gfs) [
  | none ↦ err not_found
  | some gf ↦ if str_eq gf.tenant_id tenant then ok gf else err not_found
]

abbrev pub or_else {ℓ} : {A : Type ℓ} → Option A → Option A → Option A
or_else none old = old
or_else (some new) old = some new

-- `if in.RadiusM != 0 { gf.RadiusM = in.RadiusM }`.
abbrev pub or_else_int : ℤ → ℤ → ℤ
or_else_int (pos zero) old = old
or_else_int new old = new

-- The assignments of PatchGeofence.
unfoldable pub patched : GeofenceInput → Geofence → Geofence
patched input gf = record gf {
  name = if str_eq input.name "" then gf.name else input.name;
  kind = if str_eq input.kind "" then gf.kind else input.kind;
  radius_m = or_else_int input.radius_m gf.radius_m;
  center = or_else input.center gf.center;
  rules = or_else input.rules gf.rules;
}

unfoldable pub patch_geofence : Memory → String → String → GeofenceInput → Memory × Result Geofence
unfolding get_geofence patched
patch_geofence m tenant id input = elim (get_geofence m tenant id) [
  | err e ↦ (m, err e)
  | ok gf ↦ (record m { gfs = insert id (patched input gf) m.gfs }, ok (patched input gf))
]

unfoldable pub delete_geofence : Memory → String → String → Memory × Result (Unit {0})
unfolding get_geofence
delete_geofence m tenant id = elim (get_geofence m tenant id) [
  | err e ↦ (m, err e)
  | ok gf ↦ (
    record m {
      gfs = delete id m.gfs;
      gfs_ten = insert tenant (keep (λ v. not (str_eq v id)) (index [] tenant m.gfs_ten)) m.gfs_ten;
    },
    ok tt,
  )
]
