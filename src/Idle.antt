-- ===== src/Idle.antt =====
-- internal/idle/detector.go: which Deployments of a namespace are idle, and which are excluded.
pub mod Names
pub mod Exclusion
pub mod Detector
use namespace_cost_governor.Base.{String}
use namespace_cost_governor.Go.Time.{Time}

pub record IdleWorkload : Type 0 where
  pub name : String
  pub namespace : String
  pub idle_since : Time
