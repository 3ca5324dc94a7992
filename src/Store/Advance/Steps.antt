-- ===== src/Store/Advance/Steps.antt =====
-- A step of a route on its legs alone: the first leg that is open is visited, and the next one begun.
use usps_main.Common.{
  ℕ, suc, ◌-◌, ◌≡◌, refl, sym, ap, subst, ◌∙◌, ◌⊎◌, true, false, List, [], ◌∷◌, str_eq,
  if◌then◌else◌, arith, inl, inr,
}
use usps_main.Model.{Leg}
use usps_main.Store.Advance.{is_visited}

-- The number of legs that are not visited.
unfoldable pub open_legs : List Leg → ℕ
open_legs [] = 0
open_legs (l ∷ legs) = let rest = open_legs legs in if is_visited l then rest else suc rest

-- The shape of a route on its way: visited legs, then the one in progress, then pending ones.
abbrev pub IsPending : List Leg → Type 0
IsPending [] = Unit {0}
IsPending (l ∷ legs) = (l.status ≡ "pending") × IsPending legs

abbrev pub InOrder : List Leg → Type 0
InOrder [] = Unit {0}
InOrder (l ∷ legs) =
    ((l.status ≡ "visited") × InOrder legs) ⊎ ((l.status ≡ "in_progress") × IsPending legs)

abbrev pub visit : Leg → Leg
visit l = record l { status = "visited" }

-- The leg behind the one visited is in progress.
abbrev pub start_next : List Leg → List Leg
start_next [] = []
start_next (next ∷ legs) = record next { status = "in_progress" } ∷ legs

-- One step, on the legs alone.
unfoldable pub step_legs : List Leg → List Leg
step_legs [] = []
step_legs (l ∷ legs) =
    let rest = step_legs legs in if is_visited l then l ∷ rest else visit l ∷ start_next legs

start_next-InOrder : (legs : List Leg) → IsPending legs → InOrder (start_next legs)
start_next-InOrder [] h = tt
start_next-InOrder (l ∷ legs) (_, h) = inr (refl, h)

visited : (l : Leg) → l.status ≡ "visited" → is_visited l ≡ true
visited l e = subst (λ s. str_eq s "visited" ≡ true) (sym e) refl

in_progress : (l : Leg) → l.status ≡ "in_progress" → is_visited l ≡ false
in_progress l e = subst (λ s. str_eq s "visited" ≡ false) (sym e) refl

open_legs_nil : open_legs [] ≡ 0
unfolding open_legs
open_legs_nil = refl

step_legs_nil : step_legs [] ≡ []
unfolding step_legs
step_legs_nil = refl

step_legs-visited :
    (l : Leg) (legs : List Leg) → is_visited l ≡ true → step_legs (l ∷ legs) ≡ l ∷ step_legs legs
unfolding step_legs
step_legs-visited l legs e = ap (λ b. if b then l ∷ step_legs legs else visit l ∷ start_next legs) e

step_legs-open :
    (l : Leg) (legs : List Leg)
    → is_visited l ≡ false
    → step_legs (l ∷ legs) ≡ visit l ∷ start_next legs
unfolding step_legs
step_legs-open l legs e = ap (λ b. if b then l ∷ step_legs legs else visit l ∷ start_next legs) e

pub step_legs-InOrder : (legs : List Leg) → InOrder legs → InOrder (step_legs legs)
step_legs-InOrder [] h = subst InOrder (sym step_legs_nil) tt
step_legs-InOrder (l ∷ legs) (inl (v, h)) =
    subst InOrder (sym (step_legs-visited l legs (visited l v))) (inl (v, step_legs-InOrder legs h))
step_legs-InOrder (l ∷ legs) (inr (v, h)) =
    subst InOrder (sym (step_legs-open l legs (in_progress l v)))
      (inl (refl, start_next-InOrder legs h))

-- On the way, each step leaves one open leg less.
open_legs-visited :
    (l : Leg) (legs : List Leg) → is_visited l ≡ true → open_legs (l ∷ legs) ≡ open_legs legs
unfolding open_legs
open_legs-visited l legs e = ap (λ b. if b then open_legs legs else suc (open_legs legs)) e

open_legs-open :
    (l : Leg) (legs : List Leg) → is_visited l ≡ false → open_legs (l ∷ legs) ≡ suc (open_legs legs)
unfolding open_legs
open_legs-open l legs e = ap (λ b. if b then open_legs legs else suc (open_legs legs)) e

open_legs-start_next :
    (legs : List Leg) → IsPending legs → open_legs (start_next legs) ≡ open_legs legs
open_legs-start_next [] h = refl
open_legs-start_next (l ∷ legs) (e, h) =
    open_legs-open (record l { status = "in_progress" }) legs refl
    ∙ sym (open_legs-open l legs (subst (λ s. str_eq s "visited" ≡ false) (sym e) refl))

pub open_legs-step_legs :
    (legs : List Leg) → InOrder legs → open_legs (step_legs legs) ≡ open_legs legs - 1
open_legs-step_legs [] h = omega (arith, ap open_legs step_legs_nil, open_legs_nil)
open_legs-step_legs (l ∷ legs) (inl (v, h)) = omega (
  arith,
  ap open_legs (step_legs-visited l legs (visited l v)),
  open_legs-visited l (step_legs legs) (visited l v),
  open_legs-step_legs legs h,
  open_legs-visited l legs (visited l v),
)
open_legs-step_legs (l ∷ legs) (inr (v, h)) = omega (
  arith,
  ap open_legs (step_legs-open l legs (in_progress l v)),
  open_legs-visited (visit l) (start_next legs) refl,
  open_legs-start_next legs h,
  open_legs-open l legs (in_progress l v),
)
