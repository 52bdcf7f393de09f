-- ===== src/Actions/ScaleDown/Skips.antt =====
-- Deployments that a scale-down leaves alone.
use mathlib.Core.Option.{some-injective}
use namespace_cost_governor.Base.{
  String, some, true, ◌||◌, ◌≡◌, sym, ◌∙◌, inl, inr, Result-cases, ◌>>=◌, Bool-cases, arith,
}
use namespace_cost_governor.Base.Keeps.{Keeps}
use namespace_cost_governor.Go.Float.{Float64}
use namespace_cost_governor.Api.Kube.{Deployment}
use namespace_cost_governor.Outside.{Outside}
use namespace_cost_governor.Outside.Frame.{Holds}
use namespace_cost_governor.Outside.Laws.{IsLawful, Same}
use namespace_cost_governor.Outside.Patch.{deployment_at-Reads}
use namespace_cost_governor.Idle.{IdleWorkload}
use namespace_cost_governor.Actions.ScaleDown.{
  annotation_scaled_down_by, marked, scale_down, is_scaled_down_by_operator, at_zero,
}
use namespace_cost_governor.Actions.ScaleDown.Annotations.{is_scaled_down_by_operator-marked}

module _ {F : Float64} (O : Outside F) (L : IsLawful O) (x : IdleWorkload) where
  -- A Deployment that carries the operator's annotation, or whose replicas are 0, stays as it is.
  pub scale_down-Holds_skipped :
      (d : Deployment)
      → (is_scaled_down_by_operator d || at_zero d) ≡ true
      → Keeps (Holds O x.namespace x.name (some d)) (scale_down O x)
  unfolding scale_down ◌>>=◌
  scale_down-Holds_skipped d skip = record {
    at = λ w h.
        let get = O.get_deployment x.namespace x.name in
        let kept =
          deployment_at-Reads O get w x.namespace x.name (L.get_deployment-reads x.namespace x.name)
          ∙ h in
        elim (Result-cases (get w).0) [
          | inr (e, failing) ↦ rw failing kept
          | inl (d', got) ↦
              let same =
                some-injective _ _ (sym (L.get_deployment_lem w x.namespace x.name d' got) ∙ h) in
              elim (Bool-cases (is_scaled_down_by_operator d)) [
                | inl marked ↦ rw (got, same, marked) kept
                | inr unmarked ↦
                    let zero : at_zero d ≡ true = ground arith in
                    rw (got, same, unmarked, zero) kept
              ]
        ];
  }

  -- A Deployment whose annotations were written but whose replicas were not set to 0, because the
  -- second patch failed, is not scaled down by a later call either: it keeps its replicas.
  pub scale_down-Holds_recorded :
      (at : String) (d d' : Deployment)
      → Same d' (marked at d)
      → Keeps (Holds O x.namespace x.name (some d')) (scale_down O x)
  scale_down-Holds_recorded at d d' same = scale_down-Holds_skipped d' (
      let m =
        is_scaled_down_by_operator-marked at d d' (same.annotations annotation_scaled_down_by) in
      ground arith)
