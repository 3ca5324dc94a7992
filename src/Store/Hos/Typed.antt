-- ===== src/Store/Hos/Typed.antt =====
-- Why the type assertion of UpdateHOS in internal/store/memory.go does not panic.
use usps_main.Common.{◌≡◌, refl, String, some, arith, Bool-cases, inl, inr, str_eq, str_eq_iff}
use usps_main.Common.Maps.{Map, lookup, insert, lookup-insert, lookup-insert_self}
use usps_main.Model.{Any, text, HosUpdate}
use usps_main.Store.{Memory, new_memory}
use usps_main.Store.Hos.{status_of, apply_action, updated, hos_state, update_hos}

-- Every driver's state has a text for its status.
abbrev pub HasStatus : Memory → Type 0
HasStatus m = (driver : String) → (s : String) × (status_of (hos_state m driver) ≡ some s)

pub new_memory-HasStatus : HasStatus new_memory
unfolding new_memory status_of hos_state lookup
new_memory-HasStatus driver = ("off", refl)

pub same-HasStatus : (m m' : Memory) → m'.hos ≡ m.hos → HasStatus m → HasStatus m'
unfolding hos_state
same-HasStatus m m' e h driver = let (s, f) = h driver in (s, ground (arith, e, f))

status_of-updated :
    (upd : HosUpdate) (status : String) (st : Map Any)
    → status_of (updated upd status st).1 ≡ some (updated upd status st).0
unfolding updated status_of
status_of-updated upd status st =
    let acted = apply_action upd status st in
    let st' = insert "status" (text acted.0) acted.1 in
    ground (
      arith,
      lookup-insert_self "status" (text acted.0) acted.1,
      lookup-insert "note" "status" (text upd.note) st',
      str_eq_iff "note" "status",
    )

pub update_hos-HasStatus :
    (m : Memory) (tenant driver : String) (upd : HosUpdate)
    → HasStatus m
    → (m' : Memory) × (status : String) × (st : Map Any) × (update_hos m tenant driver upd
        ≡ some (m', status, st))
      × HasStatus m'
unfolding update_hos hos_state
update_hos-HasStatus m tenant driver upd h =
    let (s, e) = h driver in
    let u = updated upd s (hos_state m driver) in
    (
      record m { hos = insert driver u.1 m.hos },
      u.0,
      u.1,
      ground (arith, e),
      λ other. elim (Bool-cases (str_eq driver other)) [
        | inl f ↦ (
          u.0,
          ground (
            arith,
            f,
            lookup-insert driver other u.1 m.hos,
            status_of-updated upd s (hos_state m driver),
          ),
        )
        | inr f ↦
            ((h other).0, ground (arith, f, (h other).1, lookup-insert driver other u.1 m.hos))
      ],
    )
