-- ===== src/Actions/Life/Scaling.antt =====
-- A scale-down and a suspension move every Deployment along the diagram.
use mathlib.Core.Path.{subst₂}
use namespace_cost_governor.Base.{
  String, some, false, true, ◌||◌, ◌≡◌, refl, sym, ap, ◌∙◌, inl, inr, List, [], ◌∷◌, Result, arith,
  Bool-cases,
}
use namespace_cost_governor.Base.Int.{pos}
use namespace_cost_governor.Base.Keeps.{
  Keeps, Keeps-bind, Keeps-if, Keeps-pure, Keeps-attempt, Keeps-wrapping,
}
use namespace_cost_governor.Go.Float.{Float64}
use namespace_cost_governor.Go.Strconv.{format_int}
use namespace_cost_governor.Api.{Exclusion}
use namespace_cost_governor.Api.Kube.{Deployment}
use namespace_cost_governor.Idle.{IdleWorkload}
use namespace_cost_governor.Outside.{Outside}
use namespace_cost_governor.Outside.Frame.{list_deployments-Holds}
use namespace_cost_governor.Outside.Laws.{IsLawful, Same, deployment_at}
use namespace_cost_governor.Outside.Patch.{Same-refl}
use namespace_cost_governor.Actions.ScaleDown.{
  scale_down, marked, with_replicas, is_scaled_down_by_operator, at_zero, original_replicas,
}
use namespace_cost_governor.Actions.ScaleDown.Annotations.{
  is_scaled_down_by_operator-marked, annotation-marked_original,
}
use namespace_cost_governor.Actions.ScaleDown.Others.{scale_down-Holds_other}
use namespace_cost_governor.Actions.ScaleDown.Skips.{scale_down-Holds_skipped}
use namespace_cost_governor.Actions.ScaleDown.Stages.{
  Stage, untouched, recorded, scaled, scale_down-Stage,
}
use namespace_cost_governor.Actions.Suspend.{skipped, suspend_each, suspend_all, workload_of}
use namespace_cost_governor.Actions.Life.{
  Step, marks, scales, here, next, key_cases, From, Keeps-From, Keeps-From-Holds,
}

original_replicas-marked :
    (at : String) (d : Deployment) → original_replicas (marked at d) ≡ original_replicas d
unfolding marked original_replicas
original_replicas-marked at d = refl

-- The Deployment between the two patches.
scales_marked :
    (at : String) (d e : Deployment)
    → Same e (with_replicas (pos 0) (marked at d))
    → Step (marked at d) e
scales_marked at d e same =
    scales (is_scaled_down_by_operator-marked at d (marked at d) refl)
      (annotation-marked_original at d
        ∙ ap (λ n. some (format_int n)) (sym (original_replicas-marked at d)))
      same

module _ {F : Float64} (O : Outside F) (L : IsLawful O) (ns n : String) where
  stage-From :
      (d : Deployment) (r : Result (Unit {0})) (w : O.World)
      → is_scaled_down_by_operator d ≡ false
      → at_zero d ≡ false
      → Stage d r (deployment_at O w ns n)
      → From O ns n d w
  stage-From d r w bare runs stage = elim stage [
    | untouched e at ↦ (d, at, here)
    | recorded t d' e at same ↦ (d', at, next here (marks t bare runs same))
    | scaled t d' at same ↦ (
      d',
      at,
      next (next here (marks t bare runs (Same-refl (marked t d)))) (scales_marked t d d' same),
    )
  ]

module _ {F : Float64} (O : Outside F) (L : IsLawful O) where
  scale_down-From_own :
      (x : IdleWorkload) (w : O.World) (d : Deployment)
      → deployment_at O w x.namespace x.name ≡ some d
      → From O x.namespace x.name d (scale_down O x w).1
  scale_down-From_own x w d at =
      let skips : (is_scaled_down_by_operator d || at_zero d) ≡ true
          → From O x.namespace x.name d (scale_down O x w).1 =
        λ skip. (d, (scale_down-Holds_skipped O L x d skip).at w at, here) in
      elim (Bool-cases (is_scaled_down_by_operator d)) [
        | inl mark ↦ skips (ground arith)
        | inr bare ↦ elim (Bool-cases (at_zero d)) [
          | inl zero ↦ skips (ground arith)
          | inr runs ↦
              stage-From O L x.namespace x.name d _ _ bare runs
                (scale_down-Stage O L w x d at bare runs)
        ]
      ]

  module _ (ns n : String) (d : Deployment) where
    pub scale_down-From : (x : IdleWorkload) → Keeps (From O ns n d) (scale_down O x)
    scale_down-From x = elim (key_cases x.namespace x.name ns n) [
      | inr other ↦ Keeps-From-Holds O ns n _ (λ o. scale_down-Holds_other O L ns n o x other) d
      | inl (same, same') ↦
          subst₂ (λ a b. (e : Deployment) → Keeps (From O a b e) (scale_down O x)) same same'
            (Keeps-From O x.namespace x.name _ (scale_down-From_own x)) d
    ]

    suspend_each-From :
        (exs : List Exclusion) (ds : List Deployment)
        → Keeps (From O ns n d) (suspend_each O exs ds)
    unfolding suspend_each
    suspend_each-From exs [] = Keeps-pure _
    suspend_each-From exs (d0 ∷ ds) =
        let rest = suspend_each-From exs ds in
        Keeps-if (skipped O exs d0) _ _ (λ _. rest)
          (λ _.
            Keeps-bind _ _ (Keeps-attempt _ (scale_down-From (workload_of O exs d0)))
              (λ _. Keeps-bind _ _ rest (λ s. Keeps-pure _)))

    pub suspend_all-From :
        (exs : List Exclusion) (namespace : String)
        → Keeps (From O ns n d) (suspend_all O exs namespace)
    unfolding suspend_all
    suspend_all-From exs namespace =
        Keeps-bind _ _
          (Keeps-wrapping _ _
            (Keeps-From-Holds O ns n _ (λ o. list_deployments-Holds O ns n o L namespace) d))
          (λ ds. suspend_each-From exs ds)
