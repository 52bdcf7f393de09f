-- ===== src/Actions/ScaleDown/Retry.antt =====
-- A restore that failed can be repeated.
use mathlib.Core.Path.{subst}
use namespace_cost_governor.Base.{String, Option, some, true, ◌≡◌, ◌∙◌, Result, ok, IsErr}
use namespace_cost_governor.Base.Int.{ℤ}
use namespace_cost_governor.Go.Float.{Float64}
use namespace_cost_governor.Go.Strconv.{parse_int32}
use namespace_cost_governor.Api.Kube.{Deployment, annotation}
use namespace_cost_governor.Outside.{Outside}
use namespace_cost_governor.Outside.Laws.{IsLawful, Same, deployment_at}
use namespace_cost_governor.Outside.Patch.{Same-trans, Same-with_replicas}
use namespace_cost_governor.Actions.ScaleDown.{
  unmarked, with_replicas, restore, is_scaled_down_by_operator, annotation_original_replicas,
  annotation_scaled_down_by,
}
use namespace_cost_governor.Actions.ScaleDown.Annotations.{
  is_scaled_down_by_operator-Same, annotation-with_replicas,
}
use namespace_cost_governor.Actions.ScaleDown.Restored.{
  is_scaled_down_by_operator-unmarked, restore-Holds_bare,
}
use namespace_cost_governor.Actions.ScaleDown.Restoring.{
  RestoreStage, untouched, replicas_set, restored, restore-RestoreStage, Same-unmarked,
}

-- The server holds `d` with the count and without the four annotations.
pub data IsRestored (d : Deployment) (original : ℤ) (o : Option Deployment) : Type 0 where
  is_restored :
      (d' : Deployment)
      → o ≡ some d'
      → Same d' (unmarked (with_replicas original d))
      → IsRestored d original o

stage-IsRestored :
    (d : Deployment) (original : ℤ) (r : Result (Unit {0})) (o : Option Deployment)
    → RestoreStage d original r o
    → r ≡ ok tt
    → IsRestored d original o
stage-IsRestored d original r o stage fine = elim stage [
  | untouched e o' ↦ absurd (subst IsErr fine e)
  | replicas_set d' e o' same ↦ absurd (subst IsErr fine e)
  | restored d' o' same ↦ is_restored d' o' same
]

IsRestored-Same :
    (d d' : Deployment) (original : ℤ) (o : Option Deployment)
    → Same d' (with_replicas original d)
    → IsRestored d' original o
    → IsRestored d original o
IsRestored-Same d d' original o same done = elim done [
  | is_restored d2 o' same2 ↦
      is_restored d2 o' (Same-trans same2 (Same-unmarked (Same-with_replicas original same)))
]

module _ {F : Float64} (O : Outside F) (L : IsLawful O) where
  -- However a first restore of a marked Deployment with a readable count ended, a second one that
  -- returns no error leaves the Deployment with that count and without the four annotations.
  pub restore-twice :
      (ns n : String) (w : O.World) (d : Deployment) (text : String) (original : ℤ)
      → deployment_at O w ns n ≡ some d
      → is_scaled_down_by_operator d ≡ true
      → annotation annotation_original_replicas d ≡ some text
      → parse_int32 text ≡ some original
      → (restore O ns n (restore O ns n w).1).0 ≡ ok tt
      → IsRestored d original (deployment_at O (restore O ns n (restore O ns n w).1).1 ns n)
  restore-twice ns n w d text original here mark recorded read fine =
      elim (restore-RestoreStage O L ns n w d text original here mark recorded read) [
        | untouched e o ↦
            stage-IsRestored d original _ _
              (restore-RestoreStage O L ns n _ d text original o mark recorded read) fine
        | replicas_set d' e o same ↦ IsRestored-Same d d' original _ same (
            stage-IsRestored d' original _ _
              (restore-RestoreStage O L ns n _ d' text original o
                (is_scaled_down_by_operator-Same d d' (
                    same.annotations annotation_scaled_down_by
                    ∙ annotation-with_replicas _ original d)
                  ∙ mark)
                (same.annotations annotation_original_replicas
                  ∙ annotation-with_replicas _ original d
                  ∙ recorded)
                read)
              fine)
        | restored d' o same ↦
            is_restored d'
              (restore-Holds_bare O L ns n _ d' o (is_scaled_down_by_operator-unmarked _ d' same))
              same
      ]
