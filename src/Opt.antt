-- ===== src/Opt.antt =====
-- internal/opt: the route optimiser of alns_engine.go and the 2-opt heuristic of heuristics.go.
pub mod Float
pub mod Problem
pub mod Cost
pub mod Feasible
pub mod Seed
pub mod Remove
pub mod Insert
mod Visits
mod Range
pub mod OrOpt
pub mod TwoOpt
pub mod Cross
pub mod TwoOptStar
pub mod Setup
pub mod Rebuild
pub mod Solve
pub mod Heuristics
pub mod Recorded
mod Tests
