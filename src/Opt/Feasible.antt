-- ===== src/Opt/Feasible.antt =====
-- feasibleAdd and feasibleAddAt of internal/opt/alns_engine.go.
use usps_main.Common.{
  ℕ, String, Bool, true, false, List, [], ◌∷◌, ◌++◌, ◌&&◌, not, ltb, str_eq, length, keep, any,
  take, drop,
}
use usps_main.Opt.Float.{Float64, ◌⊕◌, ◌≺◌}
use usps_main.Opt.Problem.{Demand, Vehicle, Problem, zero_f, node_at}
use usps_main.Opt.Cost.{schedule_plan}

-- The skills that are needed and that the vehicle lacks.
unfoldable pub missing_skills : List String → List String → List String
missing_skills needed has = keep (λ s. not (any (str_eq s) has)) needed

-- The check of the skills passes if either side lists none.
unfoldable pub skills_ok : List String → List String → Bool
unfolding missing_skills
skills_ok [] has = true
skills_ok (s ∷ needed) [] = true
skills_ok (s ∷ needed) (h ∷ has) = elim (missing_skills (s ∷ needed) (h ∷ has)) [
  | [] ↦ true
  | _ ∷ _ ↦ false
]

module _ {F : Type 0} ⦃fl : Float64 F⦄ where
  -- `w` and `vol` behind the loop over the plan's nodes.
  unfoldable pub load_loop : Problem F → List ℕ → Demand F → Demand F
  load_loop p [] l = l
  load_loop p (i ∷ order) l =
      let d = (node_at p i).demand in
      load_loop p order (record { weight = l.weight ⊕ d.weight; volume = l.volume ⊕ d.volume })

  -- The load of a plan's nodes, in the order of the plan.
  unfoldable pub load : Problem F → List ℕ → Demand F
  unfolding load_loop
  load p order = load_loop p order (record { weight = zero_f; volume = zero_f })

  -- `!(cap > 0 && x > cap)`.
  abbrev pub within : F → F → Bool
  within cap x = not (zero_f ≺ cap && cap ≺ x)

  unfoldable pub feasible_add : Problem F → List ℕ → Vehicle F → ℕ → Bool
  unfolding load skills_ok
  feasible_add p order v idx =
      let l = load p (order ++ idx ∷ []) in
      within v.cap_weight l.weight
      && within v.cap_volume l.volume
      && skills_ok (node_at p idx).skills v.skills

  unfoldable pub feasible_add_at : Problem F → List ℕ → Vehicle F → ℕ → ℕ → Bool
  unfolding feasible_add schedule_plan
  feasible_add_at p order v idx pos =
      feasible_add p order v idx
      && not (ltb (length order) pos)
      && (schedule_plan p (take pos order ++ (idx ∷ drop pos order)) v).1
