-- ===== src/Store/Hos.antt =====
-- UpdateHOS of internal/store/memory.go: a driver's hours-of-service state.
pub mod Typed
use usps_main.Common.{String, true, false, Option, none, some, ◌∷◌, [], str_eq, if◌then◌else◌}
use usps_main.Common.Maps.{lookup, insert, Map}
use usps_main.Model.{Any, text, flag, HosUpdate}
use usps_main.Store.{Memory}

-- `st["status"].(string)`, which panics on a value of another type.
unfoldable pub status_of : Map Any → Option String
status_of st = elim (lookup "status" st) [
  | none ↦ none
  | some v ↦ elim v [ text s ↦ some s | _ ↦ none ]
]

-- The switch on the action; the first component is the local `status`.
unfoldable pub apply_action : HosUpdate → String → Map Any → String × Map Any
apply_action upd status st =
    if str_eq upd.action "shift_start"
    then ("on", insert "shiftStart" (text upd.ts) st)
    else if str_eq upd.action "shift_end"
    then ("off", insert "shiftEnd" (text upd.ts) st)
    else if str_eq upd.action "break_start"
    then (
      status,
      insert "breakStart" (text upd.ts)
          (insert "breakType" (text upd.kind) (insert "break" (flag true) st)),
    )
    else if str_eq upd.action "break_end"
    then (status, insert "breakEnd" (text upd.ts) (insert "break" (flag false) st))
    else (status, st)

-- The state behind the switch, with the status and the note put in.
unfoldable pub updated : HosUpdate → String → Map Any → String × Map Any
unfolding apply_action
updated upd status st =
    let acted = apply_action upd status st in
    let st' = insert "status" (text acted.0) acted.1 in
    (acted.0, if str_eq upd.note "" then st' else insert "note" (text upd.note) st')

abbrev pub off_duty : Map Any
off_duty = ("status", text "off") ∷ ("break", flag false) ∷ []

-- The driver's state, or the initial one.
unfoldable pub hos_state : Memory → String → Map Any
hos_state m driver = elim (lookup driver m.hos) [ none ↦ off_duty | some st ↦ st ]

-- `none` is the panic of the type assertion.
unfoldable pub update_hos :
    Memory → String → String → HosUpdate → Option (Memory × String × Map Any)
unfolding status_of updated hos_state
update_hos m tenant driver upd = elim (status_of (hos_state m driver)) [
  | none ↦ none
  | some status ↦
      let u = updated upd status (hos_state m driver) in
      some (record m { hos = insert driver u.1 m.hos }, u.0, u.1)
]
