-- ===== src/Store/Page/Walk.antt =====
-- Following the cursors of Store/Page from the first page to the last.
use usps_main.Common.{
  ℕ, zero, suc, ◌<◌, ◌≡◌, refl, sym, ap, ◌∙◌, ◌⊎◌, inl, inr, subst, String, Bool, false, Option,
  none, some, List, [], ◌∷◌, ◌++◌, length, drop, ℤ, str_eq, str_eq_iff, length-append,
  if◌then◌else◌, Bool-cases, arith,
}
use mathlib.Core.List.{append_assoc, append-nil}
use usps_main.Store.Page.{start_of, limit_or_100, Scan, scan, next_cursor, page}
use usps_main.Store.Page.Cursor.{
  Distinct, Named, limit_or_100_pos, last_of, drop-start_of, init_of, init-append-last,
  Distinct-before, Named-at,
}

-- A client that asks for page after page until the cursor is empty, `fuel` pages at most.
unfoldable pub follow {ℓ} : {A : Type ℓ} → (String → List A × String) → ℕ → String → Option (List A)
follow ask zero cursor = none
follow ask (suc fuel) cursor =
    let p = ask cursor in
    let rest = follow ask fuel p.1 in
    if str_eq p.1 "" then some p.0 else elim rest [ none ↦ none | some more ↦ some (p.0 ++ more) ]

zero_or_suc : (n : ℕ) → (n ≡ 0) ⊎ ((m : ℕ) × (n ≡ suc m))
zero_or_suc zero = inl refl
zero_or_suc (suc n) = inr (n, refl)

first_page : (ids : List String) → drop (start_of "" ids) ids ≡ ids
unfolding start_of
first_page ids = refl

module _ {A : Type 0} (fetch : String → A) (pass : A → Bool) where
  -- The items that the ids stand for.
  abbrev pub items : List String → List A
  items [] = []
  items (id ∷ rest) = let more = items rest in if pass (fetch id) then fetch id ∷ more else more

  pub items-append : (xs ys : List String) → items (xs ++ ys) ≡ items xs ++ items ys
  items-append [] ys = refl
  items-append (x ∷ xs) ys = ground (arith, items-append xs ys)

  -- What a scan says of the list: the part that was read, and the part that is left.
  record Scanned (room : ℕ) (ids : List String) (next : String) (s : Scan A) : Type 0 where
    done : List String
    left : List String
    split : ids ≡ done ++ left
    out_eq : s.out ≡ items done
    next_eq : s.next ≡ last_of next done
    moves : 0 < room → 0 < length ids → 0 < length done
    full : (s.room ≡ 0) ⊎ (left ≡ [])

  scan-Scanned :
      (room : ℕ) (ids : List String) (next : String)
      → Scanned room ids next (scan fetch pass room ids next)
  unfolding scan
  scan-Scanned room [] next = record {
    done = [];
    left = [];
    split = refl;
    out_eq = refl;
    next_eq = refl;
    moves = omega arith;
    full = inr refl;
  }
  scan-Scanned zero (id ∷ ids) next = record {
    done = [];
    left = id ∷ ids;
    split = refl;
    out_eq = refl;
    next_eq = refl;
    moves = omega arith;
    full = inl refl;
  }
  scan-Scanned (suc room) (id ∷ ids) next = elim (Bool-cases (pass (fetch id))) [
    | inl e ↦
        let r = scan-Scanned room ids id in
        rw e (record {
          done = id ∷ r.done;
          left = r.left;
          split = ap (◌∷◌ id) r.split;
          out_eq = rw e (ap (◌∷◌ (fetch id)) r.out_eq);
          next_eq = r.next_eq;
          moves = omega arith;
          full = r.full;
        })
    | inr e ↦
        let r = scan-Scanned (suc room) ids id in
        rw e (record {
          done = id ∷ r.done;
          left = r.left;
          split = ap (◌∷◌ id) r.split;
          out_eq = rw e r.out_eq;
          next_eq = r.next_eq;
          moves = omega arith;
          full = r.full;
        })
  ]

  module _ (ids : List String) (limit : ℤ) where
    abbrev walk : ℕ → String → Option (List A)
    walk fuel cursor = follow (λ c. page fetch pass ids c limit) fuel cursor

    -- A page that is not full is the last.
    walk-last :
        (fuel : ℕ) (c : String)
        → (page fetch pass ids c limit).1 ≡ ""
        → walk (suc fuel) c ≡ some (page fetch pass ids c limit).0
    unfolding follow
    walk-last fuel c e = ground (arith, str_eq_iff (page fetch pass ids c limit).1 "")

    walk-more :
        (fuel : ℕ) (c next : String) (more : List A)
        → (page fetch pass ids c limit).1 ≡ next
        → str_eq next "" ≡ false
        → walk fuel next ≡ some more
        → walk (suc fuel) c ≡ some ((page fetch pass ids c limit).0 ++ more)
    unfolding follow
    walk-more fuel c next more e h r = ground arith

    -- What one page gives where the rest of the list is `todo`.
    page-of :
        (c : String) (todo : List String) (n : ℕ)
        → limit_or_100 limit ≡ suc n
        → drop (start_of c ids) ids ≡ todo
        → page fetch pass ids c limit ≡ (
          (scan fetch pass (suc n) todo "").out,
          next_cursor (scan fetch pass (suc n) todo "").room (scan fetch pass (suc n) todo "").next,
        )
    unfolding page
    page-of c todo n l e = rw (l, e) refl

    -- Either a page is the last, or its cursor stands behind what the page has read.
    abbrev Stepped : List String → List String → List A × String → Type 0
    Stepped done todo p =
        ((p.1 ≡ "") × (p.0 ≡ items todo))
        ⊎ ((read : List String) × (left : List String) × (ids ≡ (done ++ read) ++ left)
            × (length left < length todo)
            × (str_eq p.1 "" ≡ false)
            × (drop (start_of p.1 ids) ids ≡ left)
            × (items todo ≡ p.0 ++ items left))

    at_last :
        (l : String) (xs ys : List String)
        → ids ≡ xs ++ l ∷ ys
        → Distinct ids
        → Named ids
        → (str_eq l "" ≡ false) × (drop (start_of l ids) ids ≡ ys)
    at_last l xs ys e d nm =
        let named = Named-at l xs ys (subst Named e nm) in
        (named, rw e (drop-start_of l xs ys (Distinct-before l xs ys (subst Distinct e d)) named))

    -- The cursor that names the last id read.
    behind_last :
        (x : String) (done xs left : List String)
        → ids ≡ (done ++ x ∷ xs) ++ left
        → Distinct ids
        → Named ids
        → (str_eq (last_of x xs) "" ≡ false) × (drop (start_of (last_of x xs) ids) ids ≡ left)
    behind_last x done xs left e d nm =
        let regroup : (done ++ (init_of x xs ++ last_of x xs ∷ [])) ++ left
            ≡ (done ++ init_of x xs) ++ last_of x xs ∷ left =
          simp append_assoc in
        at_last (last_of x xs) (done ++ init_of x xs) left
          (e ∙ ap (λ t. (done ++ t) ++ left) (sym (init-append-last x xs)) ∙ regroup) d nm

    page-step_scan :
        (done todo read left : List String) (s : Scan A)
        → ids ≡ done ++ todo
        → Distinct ids
        → Named ids
        → todo ≡ read ++ left
        → s.out ≡ items read
        → s.next ≡ last_of "" read
        → 0 < length read
        → (s.room ≡ 0) ⊎ (left ≡ [])
        → Stepped done todo (s.out, next_cursor s.room s.next)
    page-step_scan done todo [] left s split d nm e out next h full = absurd (omega arith)
    page-step_scan done todo (x ∷ xs) left s split d nm e out next h full =
        elim (zero_or_suc s.room) [
          | inl z ↦
              let whole : ids ≡ (done ++ x ∷ xs) ++ left =
                split ∙ ap (◌++◌ done) e ∙ sym (append_assoc done (x ∷ xs) left) in
              let (named, behind) = behind_last x done xs left whole d nm in
              rw (z, next)
                (inr (
                  x ∷ xs,
                  left,
                  whole,
                  omega (arith, ap length e, length-append (x ∷ xs) left),
                  named,
                  behind,
                  ap items e ∙ items-append (x ∷ xs) left ∙ ap (λ t. t ++ items left) (sym out),
                ))
          | inr (m, z) ↦ rw z (
              inl (
                refl,
                elim full [
                  | inl z' ↦ absurd (omega arith)
                  | inr none_left ↦
                      out
                      ∙ sym (ap items (e ∙ ap (λ t. (x ∷ xs) ++ t) none_left ∙ append-nil (x ∷ xs)))
                ],
              ))
        ]

    page-step :
        (c : String) (done todo : List String) (n : ℕ)
        → limit_or_100 limit ≡ suc n
        → ids ≡ done ++ todo
        → Distinct ids
        → Named ids
        → drop (start_of c ids) ids ≡ todo
        → Stepped done todo (page fetch pass ids c limit)
    unfolding scan
    page-step c done [] n l split d nm e = rw (page-of c [] n l e) (inl (refl, refl))
    page-step c done (t ∷ todo) n l split d nm e =
        let r = scan-Scanned (suc n) (t ∷ todo) "" in
        subst (Stepped done (t ∷ todo)) (sym (page-of c (t ∷ todo) n l e)) (
          page-step_scan done (t ∷ todo) r.done r.left (scan fetch pass (suc n) (t ∷ todo) "") split
            d nm r.split r.out_eq r.next_eq (r.moves (omega arith) (omega arith)) r.full)

    walk-todo :
        (fuel : ℕ) (c : String) (done todo : List String)
        → ids ≡ done ++ todo
        → Distinct ids
        → Named ids
        → drop (start_of c ids) ids ≡ todo
        → length todo < fuel
        → walk fuel c ≡ some (items todo)
    walk-todo zero c done todo split d nm e h = absurd (omega arith)
    walk-todo (suc fuel) c done todo split d nm e h =
        let (n, l) = limit_or_100_pos limit in
        elim (page-step c done todo n l split d nm e) [
          | inl (last, out) ↦ walk-last fuel c last ∙ ap some out
          | inr (read, left, whole, fewer, named, behind, out) ↦
              walk-more fuel c (page fetch pass ids c limit).1 (items left) refl named (
                walk-todo fuel (page fetch pass ids c limit).1 (done ++ read) left whole d nm behind
                  (omega arith))
              ∙ ap some (sym out)
        ]

-- Following the cursors from the first page, with any limit, gives the items of all the ids that
-- pass, each once and in order; as many pages as ids and one more are enough. The ids are distinct
-- and none is the empty text.
pub walk-items :
    {A : Type 0} (fetch : String → A) (pass : A → Bool) (ids : List String) (limit : ℤ)
    → Distinct ids
    → Named ids
    → follow (λ c. page fetch pass ids c limit) (suc (length ids)) "" ≡ some (items fetch pass ids)
walk-items fetch pass ids limit d nm =
    walk-todo fetch pass ids limit (suc (length ids)) "" [] ids refl d nm (first_page ids)
      (omega arith)
