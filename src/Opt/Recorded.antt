-- ===== src/Opt/Recorded.antt =====
-- internal/opt/metrics_store.go: the planner's metrics by tenant, date and algorithm.
use usps_main.Common.{String, Bool, List, [], ◌∷◌, ◌&&◌, str_eq, if◌then◌else◌}
use usps_main.Common.Maps.{insert, Map}
use usps_main.Opt.Problem.{Metrics}

pub record Key : Type 0 where
  pub tenant : String
  pub plan_date : String
  pub algo : String

abbrev pub same_key : Key → Key → Bool
same_key a b = str_eq a.tenant b.tenant && str_eq a.plan_date b.plan_date && str_eq a.algo b.algo

-- The map `store`, with at most one entry for a key.
abbrev pub Recorded : Type 0 → Type 0
Recorded F = List (Key × Metrics F)

module _ {F : Type 0} where
  unfoldable pub record_at : Key → Metrics F → Recorded F → Recorded F
  record_at k m [] = (k, m) ∷ []
  record_at k m ((j, n) ∷ rest) =
      if same_key j k then (k, m) ∷ rest else (j, n) ∷ record_at k m rest

  unfoldable pub record_metrics : String → String → String → Metrics F → Recorded F → Recorded F
  unfolding record_at
  record_metrics tenant plan_date algo m store =
      record_at (record { tenant = tenant; plan_date = plan_date; algo = algo }) m store

  unfoldable pub get_metrics : String → String → Recorded F → Map (Metrics F)
  get_metrics tenant plan_date [] = []
  get_metrics tenant plan_date ((k, m) ∷ rest) =
      let out = get_metrics tenant plan_date rest in
      if str_eq k.tenant tenant && str_eq k.plan_date plan_date then insert k.algo m out else out
