-- ===== src/Store/Geofences/Tenants.antt =====
-- What the geofence methods keep apart: the tenants, and a geofence that is deleted.
use usps_main.Common.{
  String, true, false, some, List, [], ◌∷◌, ◌++◌, not, str_eq, str_eq_refl, keep, any, any-append,
  arith, ◌≡◌, refl, ◌∙◌, Bool,
}
use usps_main.Common.Maps.{lookup, index, lookup-insert_self, lookup-delete, index-insert}
use usps_main.Model.{Geofence, GeofenceInput}
use usps_main.Store.{Memory, not_found}
use usps_main.Store.Routes.{ok, err}
use usps_main.Store.Geofences.{
  create_geofence, get_geofence, patch_geofence, delete_geofence, patched, geofence_of,
}

-- A geofence that another tenant holds can neither be read, nor patched, nor deleted: each method answers
-- "not found", and the store is the same.
pub geofence-Apart :
    (m : Memory) (tenant id : String) (input : GeofenceInput) (gf : Geofence)
    → lookup id m.gfs ≡ some gf
    → str_eq gf.tenant_id tenant ≡ false
    → (get_geofence m tenant id ≡ err not_found)
      × (patch_geofence m tenant id input ≡ (m, err not_found))
      × (delete_geofence m tenant id ≡ (m, err not_found))
unfolding get_geofence patch_geofence delete_geofence
geofence-Apart m tenant id input gf e d =
    (ground (arith, e, d), ground (arith, e, d), ground (arith, e, d))

get_geofence-create :
    (m : Memory) (id tenant : String) (input : GeofenceInput)
    → get_geofence (create_geofence m id tenant input).0 tenant id
      ≡ ok (geofence_of id tenant input)
unfolding get_geofence create_geofence
get_geofence-create m id tenant input =
    ground (arith, str_eq_refl tenant, lookup-insert_self id (geofence_of id tenant input) m.gfs)

any-keep :
    (id : String) (xs : List String)
    → any (λ v. str_eq v id) (keep (λ v. not (str_eq v id)) xs) ≡ false
any-keep id [] = refl
any-keep id (x ∷ xs) = ground (arith, any-keep id xs)

-- Whether a tenant's list names an id.
unfoldable pub is_listed : String → String → Memory → Bool
is_listed tenant id m = any (λ v. str_eq v id) (index [] tenant m.gfs_ten)

is_listed-create :
    (m : Memory) (id tenant : String) (input : GeofenceInput)
    → is_listed tenant id (create_geofence m id tenant input).0 ≡ true
unfolding is_listed create_geofence
is_listed-create m id tenant input = ground (
  arith,
  str_eq_refl tenant,
  str_eq_refl id,
  index-insert [] tenant tenant (index [] tenant m.gfs_ten ++ id ∷ []) m.gfs_ten,
  any-append (λ v. str_eq v id) (index [] tenant m.gfs_ten) (id ∷ []),
)

-- A geofence that is read is in the store, and the tenant's own.
get_geofence-ok :
    (m : Memory) (tenant id : String) (gf : Geofence)
    → get_geofence m tenant id ≡ ok gf
    → (lookup id m.gfs ≡ some gf) × (str_eq gf.tenant_id tenant ≡ true)
unfolding get_geofence
get_geofence-ok m tenant id gf e = ground (arith, e)

get_geofence-patch :
    (m : Memory) (tenant id : String) (patch : GeofenceInput) (gf : Geofence)
    → get_geofence m tenant id ≡ ok gf
    → get_geofence (patch_geofence m tenant id patch).0 tenant id ≡ ok (patched patch gf)
unfolding patch_geofence get_geofence patched
get_geofence-patch m tenant id patch gf e =
    ground
      (arith, e, get_geofence-ok m tenant id gf e, lookup-insert_self id (patched patch gf) m.gfs)

is_listed-patch :
    (m : Memory) (tenant id : String) (patch : GeofenceInput)
    → is_listed tenant id (patch_geofence m tenant id patch).0 ≡ is_listed tenant id m
unfolding patch_geofence is_listed get_geofence
is_listed-patch m tenant id patch = ground arith

get_geofence-delete :
    (m : Memory) (tenant id : String) (gf : Geofence)
    → get_geofence m tenant id ≡ ok gf
    → get_geofence (delete_geofence m tenant id).0 tenant id ≡ err not_found
unfolding delete_geofence get_geofence
get_geofence-delete m tenant id gf e = ground (arith, e, str_eq_refl id, lookup-delete id id m.gfs)

is_listed-delete :
    (m : Memory) (tenant id : String) (gf : Geofence)
    → get_geofence m tenant id ≡ ok gf
    → is_listed tenant id (delete_geofence m tenant id).0 ≡ false
unfolding delete_geofence is_listed
is_listed-delete m tenant id gf e = ground (
  arith,
  e,
  str_eq_refl tenant,
  index-insert [] tenant tenant (keep (λ v. not (str_eq v id)) (index [] tenant m.gfs_ten))
      m.gfs_ten,
  any-keep id (index [] tenant m.gfs_ten),
)

-- A geofence that its tenant creates can be read back and is listed; patched, it reads as the patch of
-- it; deleted after that, it cannot be read and is not listed any more.
pub geofence-Life :
    (m : Memory) (id tenant : String) (input patch : GeofenceInput)
    → let created = (create_geofence m id tenant input).0 in
      let changed = (patch_geofence created tenant id patch).0 in
      let deleted = (delete_geofence changed tenant id).0 in
      (get_geofence created tenant id ≡ ok (geofence_of id tenant input))
      × (is_listed tenant id created ≡ true)
      × (get_geofence changed tenant id ≡ ok (patched patch (geofence_of id tenant input)))
      × (is_listed tenant id changed ≡ true)
      × (get_geofence deleted tenant id ≡ err not_found)
      × (is_listed tenant id deleted ≡ false)
geofence-Life m id tenant input patch =
    let created = (create_geofence m id tenant input).0 in
    let changed = (patch_geofence created tenant id patch).0 in
    let e : get_geofence created tenant id ≡ ok (geofence_of id tenant input) =
      get_geofence-create m id tenant input in
    let p : get_geofence changed tenant id ≡ ok (patched patch (geofence_of id tenant input)) =
      get_geofence-patch created tenant id patch (geofence_of id tenant input) e in
    let l : is_listed tenant id created ≡ true = is_listed-create m id tenant input in
    (
      e,
      l,
      p,
      is_listed-patch created tenant id patch ∙ l,
      get_geofence-delete changed tenant id (patched patch (geofence_of id tenant input)) p,
      is_listed-delete changed tenant id (patched patch (geofence_of id tenant input)) p,
    )
