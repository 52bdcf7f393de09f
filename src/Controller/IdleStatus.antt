-- ===== src/Controller/IdleStatus.antt =====
-- `toIdleWorkloadStatus`
pub mod Since
use namespace_cost_governor.Base.{
  String, ◌<>◌, Option, none, some, List, [], ◌∷◌, not, if◌then◌else◌,
}
use namespace_cost_governor.Base.Dict
use namespace_cost_governor.Base.Dict.{Dict}
use namespace_cost_governor.Go.Time.{Time, is_zero}
use namespace_cost_governor.Api.{IdleWorkloadStatus}
use namespace_cost_governor.Idle.{IdleWorkload}

unfoldable pub workload_key : String → String → String
workload_key namespace name = namespace <> ("/" <> name)

-- The loop that builds `prevMap`; a later entry of the same key wins.
unfoldable pub previous_into : List IdleWorkloadStatus → Dict Time → Dict Time
previous_into [] prev_map = prev_map
previous_into (p ∷ previous) prev_map =
    previous_into previous (Dict.insert (workload_key p.namespace p.name) p.idle_since prev_map)

-- The time seen before, if there is one and it is not zero; else that of the detection.
unfoldable pub since_of : Option Time → Time → Time
since_of none idle_since = idle_since
since_of (some t) idle_since = if not (is_zero t) then t else idle_since

unfoldable pub statuses_of : Dict Time → List IdleWorkload → List IdleWorkloadStatus
unfolding since_of
statuses_of prev_map [] = []
statuses_of prev_map (w ∷ workloads) =
    record {
      name = w.name;
      namespace = w.namespace;
      idle_since = since_of (Dict.lookup (workload_key w.namespace w.name) prev_map) w.idle_since;
    }
    ∷ statuses_of prev_map workloads

unfoldable pub to_idle_workload_status :
    List IdleWorkload → List IdleWorkloadStatus → List IdleWorkloadStatus
to_idle_workload_status workloads previous = statuses_of (previous_into previous []) workloads
