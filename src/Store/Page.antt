-- ===== src/Store/Page.antt =====
-- The cursor paging that ListOrders, ListGeofences and ListRoutes of memory.go share.
pub mod Cursor
pub mod Walk
use usps_main.Common.{
  ℕ, zero, suc, ◌≡◌, String, Bool, true, false, Option, none, some, List, [], ◌∷◌, length, drop,
  find_index, ℤ, pos, negsuc, str_eq, if◌then◌else◌,
}

-- `start := 0; if cursor != "" { for i, id := range ids { if id == cursor { start = i + 1; break } } }`.
unfoldable pub start_of : String → List String → ℕ
start_of cursor ids =
    if str_eq cursor ""
    then 0
    else elim (find_index (λ id. str_eq id cursor) ids) [ none ↦ 0 | some i ↦ suc i ]

-- `if limit <= 0 { limit = 100 }`.
unfoldable pub limit_or_100 : ℤ → ℕ
limit_or_100 (pos zero) = 100
limit_or_100 (pos (suc n)) = suc n
limit_or_100 (negsuc n) = 100

-- What the loop hands to the code behind it: `out`, `next`, and the room left in the page.
pub record Scan {ℓ} (A : Type ℓ) : Type ℓ where
  pub out : List A
  pub next : String
  pub room : ℕ

-- `if len(out) < limit { next = "" }`.
abbrev pub next_cursor : ℕ → String → String
next_cursor zero next = next
next_cursor (suc _) next = ""

module _ {ℓ} {A : Type ℓ} (fetch : String → A) (pass : A → Bool) where
  -- `for i := start; i < len(ids) && len(out) < limit; i++`, where `room` is `limit - len(out)`.
  unfoldable pub scan : ℕ → List String → String → Scan A
  scan room [] next = record { out = []; next = next; room = room }
  scan zero (id ∷ ids) next = record { out = []; next = next; room = 0 }
  scan (suc room) (id ∷ ids) next =
      let taken = scan room ids id in
      let passed = scan (suc room) ids id in
      if pass (fetch id)
      then record { out = fetch id ∷ taken.out; next = taken.next; room = taken.room }
      else passed

  -- A page, and the cursor of the next: empty if the page is not full.
  unfoldable pub page : List String → String → ℤ → List A × String
  page ids cursor limit =
      let s = scan (limit_or_100 limit) (drop (start_of cursor ids) ids) "" in
      (s.out, next_cursor s.room s.next)
