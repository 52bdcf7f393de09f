-- ===== src/Actions/ScaleDown/RoundTrip.antt =====
-- A restore undoes a scale-down, and a restore that failed can be repeated.
use mathlib.Core.Path.{subst}
use namespace_cost_governor.Base.{
  String, Option, some, none, false, ◌≡◌, refl, ◌∙◌, ok, inl, inr, IsErr, Bool-cases, if◌then◌else◌,
}
use namespace_cost_governor.Base.Dict
use namespace_cost_governor.Base.Int.{ℤ, pos, negsuc, ◌≤ℤ◌}
use namespace_cost_governor.Go.Float.{Float64}
use namespace_cost_governor.Go.Strconv.{format_int}
use namespace_cost_governor.Go.Strconv.RoundTrip.{parse_int32-format_int}
use namespace_cost_governor.Api.Kube.{Deployment, annotation}
use namespace_cost_governor.Outside.{Outside}
use namespace_cost_governor.Outside.Laws.{IsLawful, Same, deployment_at}
use namespace_cost_governor.Idle.{IdleWorkload}
use namespace_cost_governor.Actions.ScaleDown.{
  annotation_original_replicas, annotation_scaled_down_by, with_replicas, marked, unmarked, restore,
  scale_down, is_scaled_down_by_operator, at_zero, original_replicas,
}
use namespace_cost_governor.Actions.ScaleDown.Annotations.{
  is_ours, annotation-unmarked, annotation-marked_original, annotation-marked_other,
  annotation-with_replicas, is_scaled_down_by_operator-marked,
}
use namespace_cost_governor.Actions.ScaleDown.Stages.{untouched, recorded, scaled, scale_down-Stage}
use namespace_cost_governor.Actions.ScaleDown.Restoring.{
  untouched as unrestored, replicas_set, restored, restore-RestoreStage,
}

-- `o` is `d` with the count that it had (1 if it was unset) and without the operator's annotations.
pub data BackTo (d : Deployment) (o : Option Deployment) : Type 0 where
  back :
      (d' : Deployment)
      → o ≡ some d'
      → d'.replicas ≡ some (original_replicas d)
      → ((k : String) → annotation k d' ≡ (if is_ours k then none else annotation k d))
      → ((k : String) → Dict.lookup k d'.labels ≡ Dict.lookup k d.labels)
      → BackTo d o

-- The annotations that are not the operator's are those of `d`.
annotation-back :
    (k at : String) (n : ℤ) (d d' d'' : Deployment)
    → Same d' (with_replicas (pos 0) (marked at d))
    → Same d'' (unmarked (with_replicas n d'))
    → annotation k d'' ≡ (if is_ours k then none else annotation k d)
annotation-back k at n d d' d'' s t =
    let before = s.annotations k ∙ annotation-with_replicas k (pos 0) (marked at d) in
    t.annotations k ∙ annotation-unmarked k (with_replicas n d') ∙ elim (Bool-cases (is_ours k)) [
      | inl ours ↦ rw ours
      | inr foreign ↦
          rw foreign
            (annotation-with_replicas k n d' ∙ before ∙ annotation-marked_other k at d foreign)
    ]

replicas-unmarked : (n : ℤ) (d : Deployment) → (unmarked (with_replicas n d)).replicas ≡ some n
unfolding unmarked
replicas-unmarked n d = refl

labels-unmarked :
    (k : String) (n : ℤ) (d : Deployment)
    → Dict.lookup k (unmarked (with_replicas n d)).labels ≡ Dict.lookup k d.labels
unfolding unmarked
labels-unmarked k n d = refl

labels-marked :
    (k at : String) (d : Deployment) → Dict.lookup k (marked at d).labels ≡ Dict.lookup k d.labels
unfolding marked
labels-marked k at d = refl

module _ {F : Float64} (O : Outside F) (L : IsLawful O) where
  -- If a scale-down of a running, unmarked Deployment returns no error, and so does a restore
  -- after it, then the server holds the Deployment with the count that it had (1 if that was
  -- unset), its other annotations and its labels, and none of the operator's annotations.
  pub restore-scale_down :
      (w : O.World) (x : IdleWorkload) (d : Deployment)
      → deployment_at O w x.namespace x.name ≡ some d
      → is_scaled_down_by_operator d ≡ false
      → at_zero d ≡ false
      → negsuc 2147483647 ≤ℤ original_replicas d
      → original_replicas d ≤ℤ pos 2147483647
      → let w1 = (scale_down O x w).1 in
        let r = restore O x.namespace x.name w1 in
        (scale_down O x w).0 ≡ ok tt
        → r.0 ≡ ok tt
        → BackTo d (deployment_at O r.1 x.namespace x.name)
  restore-scale_down w x d here fresh runs lo hi done done' =
      elim (scale_down-Stage O L w x d here fresh runs) [
        | untouched e o ↦ absurd (subst IsErr done e)
        | recorded at d' e o same ↦ absurd (subst IsErr done e)
        | scaled at d' o same ↦
            let reads = λ (k : String).
              same.annotations k ∙ annotation-with_replicas k (pos 0) (marked at d) in
            elim (restore-RestoreStage O L x.namespace x.name (scale_down O x w).1 d'
              (format_int (original_replicas d)) (original_replicas d) o
              (is_scaled_down_by_operator-marked at d d' (reads annotation_scaled_down_by))
              (reads annotation_original_replicas ∙ annotation-marked_original at d)
              (parse_int32-format_int (original_replicas d) lo hi)) [
                | unrestored e o' ↦ absurd (subst IsErr done' e)
                | replicas_set d'' e o' same' ↦ absurd (subst IsErr done' e)
                | restored d'' o' same' ↦
                    back d'' o' (same'.replicas ∙ replicas-unmarked (original_replicas d) d')
                      (λ k. annotation-back k at (original_replicas d) d d' d'' same same')
                      (λ k.
                        same'.labels k
                        ∙ labels-unmarked k (original_replicas d) d'
                        ∙ same.labels k
                        ∙ labels-marked k at d)
              ]
      ]
