-- ===== src/Actions/Suspend.antt =====
-- internal/actions/suspend.go. What it prints of a failed scale-down is not modelled.
pub mod Spared
pub mod Names
use namespace_cost_governor.Base.{
  String, ◌<>◌, List, [], ◌∷◌, Bool, true, ◌||◌, if◌then◌else◌, Exec, pure, wrapping, attempt,
  ◌>>=◌, ◌>>◌,
}
use namespace_cost_governor.Base.Int.{pos}
use namespace_cost_governor.Go.Float.{Float64}
use namespace_cost_governor.Api.{Exclusion}
use namespace_cost_governor.Api.Kube.{Deployment}
use namespace_cost_governor.Outside.{Outside}
use namespace_cost_governor.Idle.{IdleWorkload}
use namespace_cost_governor.Idle.Exclusion.{is_excluded, is_label_excluded}
use namespace_cost_governor.Actions.ScaleDown.{is_scaled_down_by_operator, at_zero, scale_down}

module _ {F : Float64} (O : Outside F) (exclusions : List Exclusion) where
  -- The four tests that skip a Deployment.
  unfoldable pub skipped : Deployment → Bool
  skipped d =
      is_excluded d.name exclusions
      || (is_label_excluded O d exclusions || (is_scaled_down_by_operator d || at_zero d))

  abbrev pub workload_of : Deployment → IdleWorkload
  workload_of d = record { name = d.name; namespace = d.namespace; idle_since = pos 0 }

  -- The loop. A failed scale-down does not end it, and its name is listed all the same.
  unfoldable pub suspend_each : List Deployment → Exec O.World (List String)
  unfolding skipped
  suspend_each [] = pure []
  suspend_each (d ∷ deployments) =
      let rest = suspend_each deployments in
      if skipped d
      then rest
      else do attempt (scale_down O (workload_of d)); suspended ← rest; pure (d.name ∷ suspended)

  unfoldable pub suspend_all : String → Exec O.World (List String)
  unfolding suspend_each
  suspend_all namespace = do
    deployments ←
        wrapping ("listing deployments in " <> (namespace <> ": ")) (O.list_deployments namespace)
    suspend_each deployments
