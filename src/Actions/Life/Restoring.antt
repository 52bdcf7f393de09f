-- ===== src/Actions/Life/Restoring.antt =====
-- A restore moves every Deployment along the diagram.
use mathlib.Core.Option.{some-injective}
use mathlib.Core.Path.{subst₂}
use namespace_cost_governor.Base.{
  String, some, true, ◌≡◌, refl, sym, ◌∙◌, inl, inr, Result, Result-cases, Option-cases, Bool-cases,
  ◌>>=◌,
}
use namespace_cost_governor.Base.Int.{ℤ}
use namespace_cost_governor.Base.Keeps.{Keeps}
use namespace_cost_governor.Go.Float.{Float64}
use namespace_cost_governor.Go.Strconv.{parse_int32}
use namespace_cost_governor.Api.Kube.{Deployment, annotation}
use namespace_cost_governor.Outside.{Outside}
use namespace_cost_governor.Outside.Laws.{IsLawful, Same, deployment_at}
use namespace_cost_governor.Outside.Patch.{Same-refl, deployment_at-Reads}
use namespace_cost_governor.Actions.ScaleDown.{
  annotation_original_replicas, restore, restore_marked, unmarked, with_replicas,
  is_scaled_down_by_operator,
}
use namespace_cost_governor.Actions.ScaleDown.Restored.{
  restore-Holds_bare, deployment_at-restore_other,
}
use namespace_cost_governor.Actions.ScaleDown.Restoring.{
  RestoreStage, untouched, replicas_set, restored, restore-RestoreStage,
}
use namespace_cost_governor.Actions.Life.{
  Steps, returns, unmarks, here, next, key_cases, From, Keeps-From, Keeps-From-Holds,
  recorded_count, read_count,
}

-- The count of a readable annotation.
pub recorded_count-read :
    (d : Deployment) (text : String) (original : ℤ)
    → annotation annotation_original_replicas d ≡ some text
    → parse_int32 text ≡ some original
    → recorded_count d ≡ some original
unfolding recorded_count read_count
recorded_count-read d text original recorded read = rw (recorded, read) refl

-- The count and then the annotations, in one write or in two.
pub unmarks_restored :
    (d e : Deployment) (original : ℤ)
    → is_scaled_down_by_operator d ≡ true
    → recorded_count d ≡ some original
    → Same e (unmarked (with_replicas original d))
    → Steps d e
unfolding recorded_count is_scaled_down_by_operator annotation
unmarks_restored d e original mark recorded same =
    next (next here (returns original mark recorded (Same-refl (with_replicas original d))))
      (unmarks original mark recorded refl same)

module _ {F : Float64} (O : Outside F) (ns n : String) where
  stage-From :
      (d : Deployment) (original : ℤ) (r : Result (Unit {0})) (w : O.World)
      → is_scaled_down_by_operator d ≡ true
      → recorded_count d ≡ some original
      → RestoreStage d original r (deployment_at O w ns n)
      → From O ns n d w
  stage-From d original r w mark recorded stage = elim stage [
    | untouched e at ↦ (d, at, here)
    | replicas_set d' e at same ↦ (d', at, next here (returns original mark recorded same))
    | restored d' at same ↦ (d', at, unmarks_restored d d' original mark recorded same)
  ]

module _ {F : Float64} (O : Outside F) (L : IsLawful O) (ns n : String) where
  -- A restore that finds no count to restore writes nothing.
  restore-Holds_idle :
      (w : O.World) (d : Deployment)
      → deployment_at O w ns n ≡ some d
      → is_scaled_down_by_operator d ≡ true
      → ((v : O.World) → (restore_marked O n d v).1 ≡ v)
      → deployment_at O (restore O ns n w).1 ns n ≡ some d
  unfolding restore ◌>>=◌
  restore-Holds_idle w d at mark stays =
      let get = O.get_deployment ns n in
      let kept = deployment_at-Reads O get w ns n (L.get_deployment-reads ns n) ∙ at in
      elim (Result-cases (get w).0) [
        | inr (e, failing) ↦ rw failing kept
        | inl (d', got) ↦
            let same = some-injective _ _ (sym (L.get_deployment_lem w ns n d' got) ∙ at) in
            rw (got, same, mark, stays (get w).1) kept
      ]

  restore-From_own :
      (w : O.World) (d : Deployment)
      → deployment_at O w ns n ≡ some d
      → From O ns n d (restore O ns n w).1
  unfolding restore_marked
  restore-From_own w d at = elim (Bool-cases (is_scaled_down_by_operator d)) [
    | inr bare ↦ (d, restore-Holds_bare O L ns n w d at bare, here)
    | inl mark ↦ elim (Option-cases (annotation annotation_original_replicas d)) [
      | inl nothing ↦
          (d, restore-Holds_idle w d at mark (λ v. rw (restore_marked, nothing) refl), here)
      | inr (text, recorded) ↦ elim (Option-cases (parse_int32 text)) [
        | inl unreadable ↦ (
          d,
          restore-Holds_idle w d at mark (λ v. rw (restore_marked, recorded, unreadable) refl),
          here,
        )
        | inr (original, read) ↦
            stage-From O ns n d original _ _ mark
              (recorded_count-read d text original recorded read)
              (restore-RestoreStage O L ns n w d text original at mark recorded read)
      ]
    ]
  ]

module _ {F : Float64} (O : Outside F) (L : IsLawful O) (ns n : String) (d : Deployment) where
  pub restore-From : (ns' n' : String) → Keeps (From O ns n d) (restore O ns' n')
  restore-From ns' n' = elim (key_cases ns' n' ns n) [
    | inr other ↦
        Keeps-From-Holds O ns n _
          (λ o. record { at = λ w at. deployment_at-restore_other O L other w ∙ at }) d
    | inl (same, same') ↦
        subst₂ (λ a b. (e : Deployment) → Keeps (From O a b e) (restore O ns' n')) same same'
          (Keeps-From O ns' n' _ (restore-From_own O L ns' n')) d
  ]
