-- ===== src/Report/Events.antt =====
-- `collectSuspensionEvents` of internal/report/generator.go.
pub mod Suspended
use namespace_cost_governor.Base.{
  String, Option, none, some, List, [], ◌∷◌, Exec, pure, wrapping, ◌>>=◌,
}
use namespace_cost_governor.Go.Float.{Float64}
use namespace_cost_governor.Api.{SuspensionEvent}
use namespace_cost_governor.Api.Kube.{Deployment, annotation}
use namespace_cost_governor.Outside.{Outside}
use namespace_cost_governor.Actions.ScaleDown.{annotation_scaled_down_at, annotation_reason}

unfoldable pub text_or_empty : Option String → String
text_or_empty none = ""
text_or_empty (some s) = s

-- The loop. A nil map has no annotation of the key.
unfoldable pub events_of : List Deployment → List SuspensionEvent
unfolding text_or_empty
events_of [] = []
events_of (d ∷ ds) =
    let rest = events_of ds in
    elim (annotation annotation_scaled_down_at d) [
      | none ↦ rest
      | some at ↦
          record {
            workload = d.name;
            scaled_down_at = at;
            reason = text_or_empty (annotation annotation_reason d);
          }
          ∷ rest
    ]

unfoldable pub collect_suspension_events :
    {F : Float64} (O : Outside F) → String → Exec O.World (List SuspensionEvent)
collect_suspension_events O namespace = do
  deployments ← wrapping "listing deployments: " (O.list_deployments namespace)
  pure (events_of deployments)
