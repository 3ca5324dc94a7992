-- ===== src/Store/Advance/Progress.antt =====
-- What AdvanceRoute does to the legs of a route: it visits them one by one, in order.
use usps_main.Common.{
  ℕ, zero, suc, ◌≤◌, ◌≡◌, refl, sym, ap, subst, ◌∙◌, ◌⊎◌, String, Bool, true, false, Option, none,
  some, List, [], ◌∷◌, str_eq, str_eq_iff, if◌then◌else◌, arith, Option-cases, inl, inr, Bool-cases,
}
use usps_main.Common.Maps.{lookup, lookup-insert_self, lookup-insert}
use usps_main.Model.{Route, Leg, AdvanceRequest, AdvanceResult, AutoAdvancePolicy}
use usps_main.Store.{Memory}
use usps_main.Store.Advance.{
  is_blocked, unchanged, is_visited, current_leg, move_legs, advanced, advance_route,
}
use usps_main.Store.Advance.Steps.{
  open_legs, InOrder, visit, start_next, step_legs, step_legs-InOrder, open_legs-step_legs,
}

-- The legs behind the code's step.
abbrev moved : AdvanceResult → List Leg → Option ℕ → List Leg
moved res legs none = legs
moved res legs (some i) = (move_legs i res legs).0

move_legs-suc :
    (res : AdvanceResult) (l : Leg) (legs : List Leg) (i : ℕ)
    → (move_legs (suc i) res (l ∷ legs)).0 ≡ l ∷ (move_legs i res legs).0
unfolding move_legs
move_legs-suc res l legs i = ground arith

move_legs-here :
    (res : AdvanceResult) (l : Leg) (legs : List Leg)
    → (move_legs 0 res (l ∷ legs)).0 ≡ visit l ∷ start_next legs
unfolding move_legs
move_legs-here res l [] = refl
move_legs-here res l (n ∷ legs) = refl

abbrev behind : Option ℕ → Option ℕ
behind none = none
behind (some i) = some (suc i)

current_leg-cons :
    (l : Leg) (legs : List Leg)
    → current_leg (l ∷ legs) ≡ (if is_visited l then behind (current_leg legs) else some 0)
unfolding current_leg
current_leg-cons l legs = ground arith

moved-behind :
    (res : AdvanceResult) (l : Leg) (legs : List Leg) (o : Option ℕ)
    → moved res (l ∷ legs) (behind o) ≡ l ∷ moved res legs o
moved-behind res l legs none = refl
moved-behind res l legs (some i) = move_legs-suc res l legs i

moved-cons :
    (res : AdvanceResult) (l : Leg) (legs : List Leg) (o : Option ℕ) (b : Bool)
    → moved res (l ∷ legs) (if b then behind o else some 0)
      ≡ (if b then l ∷ moved res legs o else visit l ∷ start_next legs)
moved-cons res l legs o true = moved-behind res l legs o
moved-cons res l legs o false = move_legs-here res l legs

moved_nil : (res : AdvanceResult) → moved res [] (current_leg []) ≡ []
unfolding current_leg
moved_nil res = refl

moved-step :
    (res : AdvanceResult) (legs : List Leg) → moved res legs (current_leg legs) ≡ step_legs legs
unfolding step_legs
moved-step res [] = moved_nil res
moved-step res (l ∷ legs) =
    ap (moved res (l ∷ legs)) (current_leg-cons l legs)
    ∙ moved-cons res l legs (current_leg legs) (is_visited l)
    ∙ ap (λ rest. if is_visited l then l ∷ rest else visit l ∷ start_next legs)
        (moved-step res legs)

moved-advanced :
    (r : Route) (id ts : String)
    → moved (unchanged id ts) r.legs (current_leg r.legs) ≡ (advanced r id ts).0.legs
unfolding advanced
moved-advanced r id ts = ground arith

-- The code's step is the step on the legs.
advanced-legs : (r : Route) (id ts : String) → (advanced r id ts).0.legs ≡ step_legs r.legs
advanced-legs r id ts = sym (moved-advanced r id ts) ∙ moved-step (unchanged id ts) r.legs

-- A route that has not changed has the same legs.
unchanged-legs :
    (r : Route) (id ts : String)
    → (advanced r id ts).1.changed ≡ false
    → (advanced r id ts).0.legs ≡ r.legs
unfolding advanced current_leg move_legs
unchanged-legs r id ts h = ground arith

-- The route that is stored after a request.
abbrev stored : Route → String → AdvanceRequest → String → Route
stored r id req ts =
    if is_blocked r.auto_advance req
    then r
    else if (advanced r id ts).1.changed
    then (advanced r id ts).0
    else r

advance_route-stored :
    (m : Memory) (tenant id : String) (req : AdvanceRequest) (ts : String) (r : Route)
    → lookup id m.routes ≡ some r
    → lookup id (advance_route m tenant id req ts).0.routes ≡ some (stored r id req ts)
unfolding advance_route
advance_route-stored m tenant id req ts r e =
    ground (arith, e, lookup-insert_self id (advanced r id ts).0 m.routes)

-- The other routes are left alone.
advance_route-others :
    (m : Memory) (tenant id : String) (req : AdvanceRequest) (ts j : String)
    → str_eq id j ≡ false
    → lookup j (advance_route m tenant id req ts).0.routes ≡ lookup j m.routes
unfolding advance_route
advance_route-others m tenant id req ts j d = elim (Option-cases (lookup id m.routes)) [
  | inl e ↦ ground (arith, e)
  | inr (r, e) ↦ ground (arith, e, d, lookup-insert id j (advanced r id ts).0 m.routes)
]

stored-legs :
    (r : Route) (id : String) (req : AdvanceRequest) (ts : String)
    → ((stored r id req ts).legs ≡ r.legs) ⊎ ((stored r id req ts).legs ≡ step_legs r.legs)
stored-legs r id req ts = ground (arith, advanced-legs r id ts)

unblocked-legs :
    (r : Route) (id : String) (req : AdvanceRequest) (ts : String)
    → is_blocked r.auto_advance req ≡ false
    → (stored r id req ts).legs ≡ step_legs r.legs
unblocked-legs r id req ts b = ground (arith, advanced-legs r id ts, unchanged-legs r id ts)

stored-InOrder :
    (r : Route) (id : String) (req : AdvanceRequest) (ts : String)
    → InOrder r.legs
    → InOrder (stored r id req ts).legs
stored-InOrder r id req ts h = elim (stored-legs r id req ts) [
  | inl e ↦ subst InOrder (sym e) h
  | inr e ↦ subst InOrder (sym e) (step_legs-InOrder r.legs h)
]

advance_route-missing :
    (m : Memory) (tenant id : String) (req : AdvanceRequest) (ts : String)
    → lookup id m.routes ≡ none
    → lookup id (advance_route m tenant id req ts).0.routes ≡ none
unfolding advance_route
advance_route-missing m tenant id req ts e = ground (arith, e)

advance_route-InOrder_self :
    (m : Memory) (tenant id : String) (req : AdvanceRequest) (ts : String)
    → ((j : String) (r : Route) → lookup j m.routes ≡ some r → InOrder r.legs)
    → (r : Route) → lookup id (advance_route m tenant id req ts).0.routes ≡ some r
    → InOrder r.legs
advance_route-InOrder_self m tenant id req ts h r e = elim (Option-cases (lookup id m.routes)) [
  | inl f ↦ ground (arith, advance_route-missing m tenant id req ts f, e)
  | inr (r0, f) ↦
      let same : stored r0 id req ts ≡ r =
        ap (λ o. elim o [ none ↦ r | some x ↦ x ])
          (sym (advance_route-stored m tenant id req ts r0 f) ∙ e) in
      subst (λ x. InOrder x.legs) same (stored-InOrder r0 id req ts (h id r0 f))
]

-- Every request, of any tenant and blocked or not, keeps each route in the shape: visited legs, then at
-- most one in progress, then pending ones.
pub advance_route-InOrder :
    (m : Memory) (tenant id : String) (req : AdvanceRequest) (ts : String)
    → ((j : String) (r : Route) → lookup j m.routes ≡ some r → InOrder r.legs)
    → (j : String) (r : Route) → lookup j (advance_route m tenant id req ts).0.routes ≡ some r
    → InOrder r.legs
advance_route-InOrder m tenant id req ts h j r e = elim (Bool-cases (str_eq id j)) [
  | inl d ↦ advance_route-InOrder_self m tenant id req ts h r (
      subst (λ k. lookup k (advance_route m tenant id req ts).0.routes ≡ some r)
        (sym ((str_eq_iff id j).0 d)) e)
  | inr d ↦ h j r (sym (advance_route-others m tenant id req ts j d) ∙ e)
]

forced :
    (pol : Option AutoAdvancePolicy) (req : AdvanceRequest)
    → req.force ≡ true
    → is_blocked pol req ≡ false
unfolding is_blocked
forced pol req f = ground (arith, f)

-- The store behind a number of equal requests.
abbrev pub advance_times : ℕ → String → String → AdvanceRequest → String → Memory → Memory
advance_times zero tenant id req ts m = m
advance_times (suc n) tenant id req ts m =
    advance_times n tenant id req ts (advance_route m tenant id req ts).0

-- Requests that are forced finish a route that is on its way: after as many as it has open legs, or more, none
-- is open.
pub advance_times-open_legs :
    (n : ℕ) (m : Memory) (tenant id : String) (req : AdvanceRequest) (ts : String) (r : Route)
    → req.force ≡ true
    → lookup id m.routes ≡ some r
    → InOrder r.legs
    → open_legs r.legs ≤ n
    → (r' : Route) × (lookup id (advance_times n tenant id req ts m).routes ≡ some r')
      × (open_legs r'.legs ≡ 0)
advance_times-open_legs zero m tenant id req ts r f e h le = (r, e, omega arith)
advance_times-open_legs (suc n) m tenant id req ts r f e h le =
    advance_times-open_legs n (advance_route m tenant id req ts).0 tenant id req ts
      (stored r id req ts) f (advance_route-stored m tenant id req ts r e)
      (stored-InOrder r id req ts h)
      (omega (
        arith,
        ap open_legs (unblocked-legs r id req ts (forced r.auto_advance req f)),
        open_legs-step_legs r.legs h,
      ))
