-- ===== src/Actions/ScaleDown.antt =====
-- internal/actions/scaledown.go
pub mod Annotations
pub mod Stages
pub mod Others
pub mod Skips
pub mod Restoring
pub mod RoundTrip
pub mod Restored
pub mod Retry
pub mod Answered
use namespace_cost_governor.Base.{
  String, ◌<>◌, Option, none, some, Bool, true, false, ◌==◌, if◌then◌else◌, failure, wrap, Exec,
  pure, throw, wrapping, ◌>>=◌, ◌>>◌,
}
use namespace_cost_governor.Base.Int.{ℤ, pos, beq_ℤ}
use namespace_cost_governor.Go.Float.{Float64}
use namespace_cost_governor.Go.Strconv.{format_int, parse_int32, parse_int_error}
use namespace_cost_governor.Go.Time.{Time}
use namespace_cost_governor.Api.Kube.{Deployment, annotation, annotate, unannotate}
use namespace_cost_governor.Outside.{Outside, clock}
use namespace_cost_governor.Idle.{IdleWorkload}

abbrev pub annotation_scaled_down_by : String
annotation_scaled_down_by = "cost.platform.io/scaled-down-by"

abbrev pub annotation_scaled_down_at : String
annotation_scaled_down_at = "cost.platform.io/scaled-down-at"

abbrev pub annotation_original_replicas : String
annotation_original_replicas = "cost.platform.io/original-replicas"

abbrev pub annotation_reason : String
annotation_reason = "cost.platform.io/reason"

abbrev pub operator_name : String
operator_name = "namespace-cost-governor"

-- A nil map and a missing key both read as "", which is not the operator's name.
unfoldable pub is_scaled_down_by_operator : Deployment → Bool
unfolding annotation
is_scaled_down_by_operator d = elim (annotation annotation_scaled_down_by d) [
  | none ↦ false
  | some by ↦ by == operator_name
]

-- `deployment.Spec.Replicas != nil && *deployment.Spec.Replicas == 0`
unfoldable pub at_zero : Deployment → Bool
at_zero d = elim d.replicas [ none ↦ false | some n ↦ beq_ℤ n (pos 0) ]

unfoldable pub original_replicas : Deployment → ℤ
original_replicas d = elim d.replicas [ none ↦ pos 1 | some n ↦ n ]

-- The deployment with the four annotations of patch 1; `at` is the formatted time.
unfoldable pub marked : String → Deployment → Deployment
unfolding original_replicas annotate format_int
marked at d = record d {
  annotations = annotate annotation_reason "idle:cpu<threshold:30m" (
      annotate annotation_original_replicas (format_int (original_replicas d)) (
        annotate annotation_scaled_down_at at
          (annotate annotation_scaled_down_by operator_name d.annotations)));
}

-- The deployment without them.
unfoldable pub unmarked : Deployment → Deployment
unfolding unannotate
unmarked d = record d {
  annotations = unannotate annotation_reason (
      unannotate annotation_original_replicas (
        unannotate annotation_scaled_down_at (unannotate annotation_scaled_down_by d.annotations)));
}

abbrev pub with_replicas : ℤ → Deployment → Deployment
with_replicas n d = record d { replicas = some n }

module _ {F : Float64} (O : Outside F) where
  -- Patch 1 writes the annotations. Each patch leaves the server's answer in `deployment`.
  unfoldable pub mark : String → Deployment → Exec O.World Deployment
  unfolding ◌>>=◌ marked
  mark workload_name deployment = do
    t ← clock O
    wrapping ("writing annotations on " <> (workload_name <> ": "))
        (O.patch_deployment deployment (marked (O.calendar.format_rfc3339_utc t) deployment))

  -- Patch 2 sets the replicas to 0.
  unfoldable pub scale_to_zero : String → Deployment → Exec O.World Unit
  unfolding ◌>>=◌
  scale_to_zero workload_name deployment = do
    wrapping ("scaling down " <> (workload_name <> ": "))
        (O.patch_deployment deployment (with_replicas (pos 0) deployment))
    pure tt

  mark_and_scale : String → Deployment → Exec O.World Unit
  unfolding ◌>>=◌ mark scale_to_zero
  mark_and_scale workload_name deployment = do
    annotated ← mark workload_name deployment
    scale_to_zero workload_name annotated

  unfoldable pub scale_down : IdleWorkload → Exec O.World Unit
  unfolding mark_and_scale is_scaled_down_by_operator at_zero
  scale_down workload = do
    deployment ←
        wrapping ("fetching deployment " <> (workload.name <> ": "))
          (O.get_deployment workload.namespace workload.name)
    if is_scaled_down_by_operator deployment
        then pure tt
        else (if at_zero deployment then pure tt else mark_and_scale workload.name deployment)

  -- Patch 1 sets the replicas, patch 2 removes the annotations.
  unfoldable pub restore_to : String → ℤ → Deployment → Exec O.World Unit
  unfolding ◌>>=◌ unmarked
  restore_to deployment_name original deployment = do
    restored ←
        wrapping ("restoring replicas on " <> (deployment_name <> ": "))
          (O.patch_deployment deployment (with_replicas original deployment))
    wrapping ("removing annotations on " <> (deployment_name <> ": "))
        (O.patch_deployment restored (unmarked restored))
    pure tt

  unfoldable pub restore_marked : String → Deployment → Exec O.World Unit
  unfolding restore_to parse_int_error
  restore_marked deployment_name deployment =
      elim (annotation annotation_original_replicas deployment) [
        | none ↦ throw (
            failure ("deployment " <> (deployment_name <> " missing original-replicas annotation")))
        | some original_str ↦ elim (parse_int32 original_str) [
          | none ↦ throw (
              wrap ("parsing original replicas for " <> (deployment_name <> ": "))
                (parse_int_error original_str))
          | some original ↦ restore_to deployment_name original deployment
        ]
      ]

  unfoldable pub restore : String → String → Exec O.World Unit
  unfolding restore_marked is_scaled_down_by_operator parse_int32
  restore namespace deployment_name = do
    deployment ←
        wrapping ("fetching deployment " <> (deployment_name <> ": "))
          (O.get_deployment namespace deployment_name)
    if is_scaled_down_by_operator deployment
        then restore_marked deployment_name deployment
        else pure tt
