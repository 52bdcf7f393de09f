-- ===== src/Actions/ScaleDown/Restored.antt =====
-- A restore that returns no error leaves its Deployment without the operator's mark, and in every
-- case leaves the other Deployments alone.
use mathlib.Core.Option.{some-injective}
use mathlib.Core.Path.{subst}
use namespace_cost_governor.Base.{
  String, Option, some, true, false, ◌≡◌, sym, refl, ◌∙◌, inl, inr, Result-cases, Option-cases,
  Result, ok, IsErr, ap, wrapping, world->>-pure, ◌>>=◌, Bool-cases,
}
use namespace_cost_governor.Base.Int.{ℤ}
use namespace_cost_governor.Go.Float.{Float64}
use namespace_cost_governor.Go.Strconv.{parse_int32}
use namespace_cost_governor.Api.Kube.{Deployment, annotation}
use namespace_cost_governor.Outside.{Outside}
use namespace_cost_governor.Outside.Laws.{IsLawful, Same, deployment_at}
use namespace_cost_governor.Outside.Patch.{
  deployment_at-Reads, deployment_at-patch_other, patch-Patched, done, failed, lost,
}
use namespace_cost_governor.Actions.ScaleDown.{
  unmarked, with_replicas, restore_to, restore_marked, restore, is_scaled_down_by_operator,
  annotation_original_replicas, annotation_scaled_down_by,
}
use namespace_cost_governor.Actions.ScaleDown.Annotations.{annotation-unmarked}
use namespace_cost_governor.Actions.ScaleDown.Restoring.{
  RestoreStage, untouched, replicas_set, restored, restore-RestoreStage,
}

pub is_scaled_down_by_operator-unmarked :
    (d d' : Deployment) → Same d' (unmarked d) → is_scaled_down_by_operator d' ≡ false
unfolding is_scaled_down_by_operator
is_scaled_down_by_operator-unmarked d d' same =
    rw
      (
        is_scaled_down_by_operator,
        same.annotations annotation_scaled_down_by
            ∙ annotation-unmarked annotation_scaled_down_by d,
      )
      refl

-- What the server holds of a Deployment that was restored: it is there, without the mark.
pub data Unmarked (o : Option Deployment) : Type 0 where
  without : (d : Deployment) → o ≡ some d → is_scaled_down_by_operator d ≡ false → Unmarked o

module _ {F : Float64} (O : Outside F) (L : IsLawful O) where
  restored_ok :
      (d : Deployment) (original : ℤ) (r : Result (Unit {0})) (o : Option Deployment)
      → RestoreStage d original r o
      → r ≡ ok tt
      → Unmarked o
  restored_ok d original r o stage fine = elim stage [
    | untouched e o' ↦ absurd (subst IsErr fine e)
    | replicas_set d' e o' same ↦ absurd (subst IsErr fine e)
    | restored d' o' same ↦ without d' o' (is_scaled_down_by_operator-unmarked _ d' same)
  ]

  -- The Deployment that the restore fetches is the stored one.
  fetched :
      (ns n : String) (w : O.World) (d d' : Deployment)
      → deployment_at O w ns n ≡ some d
      → (O.get_deployment ns n w).0 ≡ ok d'
      → d' ≡ d
  fetched ns n w d d' here got =
      some-injective _ _ (sym (L.get_deployment_lem w ns n d' got) ∙ here)

  restore-IsErr :
      (ns n : String) (w : O.World) (d : Deployment)
      → deployment_at O w ns n ≡ some d
      → is_scaled_down_by_operator d ≡ true
      → ((v : O.World) → IsErr (restore_marked O n d v).0)
      → IsErr (restore O ns n w).0
  unfolding restore ◌>>=◌
  restore-IsErr ns n w d here mark fails = elim (Result-cases (O.get_deployment ns n w).0) [
    | inr (e, failing) ↦ rw failing tt
    | inl (d', got) ↦ let same = fetched ns n w d d' here got in rw (got, same, mark) (fails _)
  ]

  -- A restore leaves a Deployment without the mark as it is.
  pub restore-Holds_bare :
      (ns n : String) (w : O.World) (d : Deployment)
      → deployment_at O w ns n ≡ some d
      → is_scaled_down_by_operator d ≡ false
      → deployment_at O (restore O ns n w).1 ns n ≡ some d
  unfolding restore ◌>>=◌
  restore-Holds_bare ns n w d here bare =
      let get = O.get_deployment ns n in
      let kept = deployment_at-Reads O get w ns n (L.get_deployment-reads ns n) ∙ here in
      elim (Result-cases (get w).0) [
        | inr (e, failing) ↦ rw failing kept
        | inl (d', got) ↦ let same = fetched ns n w d d' here got in rw (got, same, bare) kept
      ]

  -- A restore of a stored Deployment that returns no error leaves it stored without the mark.
  pub restore-Unmarked :
      (ns n : String) (w : O.World) (d : Deployment)
      → deployment_at O w ns n ≡ some d
      → (restore O ns n w).0 ≡ ok tt
      → Unmarked (deployment_at O (restore O ns n w).1 ns n)
  unfolding restore_marked
  restore-Unmarked ns n w d here fine = elim (Bool-cases (is_scaled_down_by_operator d)) [
    | inl mark ↦ elim (Option-cases (annotation annotation_original_replicas d)) [
      | inl nothing ↦ absurd (
          subst IsErr fine
            (restore-IsErr ns n w d here mark (λ v. rw (restore_marked, nothing) tt)))
      | inr (text, recorded) ↦ elim (Option-cases (parse_int32 text)) [
        | inl unreadable ↦ absurd (
            subst IsErr fine (
              restore-IsErr ns n w d here mark (λ v. rw (restore_marked, recorded, unreadable) tt)))
        | inr (original, read) ↦
            restored_ok d original _ _
              (restore-RestoreStage O L ns n w d text original here mark recorded read) fine
      ]
    ]
    | inr bare ↦ without d (restore-Holds_bare ns n w d here bare) bare
  ]

module _ {F : Float64} (O : Outside F) (L : IsLawful O) {ns n ns' n' : String}
    (other : (ns ≡ ns') × (n ≡ n') → ⊥) where
  deployment_at-restore_to :
      (name : String) (original : ℤ) (w : O.World) (d : Deployment)
      → deployment_at O w ns n ≡ some d
      → deployment_at O (restore_to O name original d w).1 ns' n' ≡ deployment_at O w ns' n'
  unfolding restore_to
  deployment_at-restore_to name original w d here =
      let key = L.stored_key w ns n d here in
      let first =
        deployment_at-patch_other O L w ns n ns' n' d (with_replicas original d) key.0 key.1
          other in
      elim (patch-Patched O L w ns n d (with_replicas original d) here) [
        | failed e r o ↦ rw r first
        | lost e d' r o same ↦ rw r first
        | done d1 r o same ↦
            let key1 = L.stored_key _ ns n d1 o in
            rw r (
              ap (λ v. deployment_at O v ns' n')
                (world->>-pure (wrapping _ (O.patch_deployment d1 (unmarked d1))) tt _)
              ∙ deployment_at-patch_other O L _ ns n ns' n' d1 (unmarked d1) key1.0 key1.1 other
              ∙ first)
      ]

  deployment_at-restore_marked :
      (name : String) (w : O.World) (d : Deployment)
      → deployment_at O w ns n ≡ some d
      → deployment_at O (restore_marked O name d w).1 ns' n' ≡ deployment_at O w ns' n'
  unfolding restore_marked
  deployment_at-restore_marked name w d here =
      elim (Option-cases (annotation annotation_original_replicas d)) [
        | inl nothing ↦ rw (restore_marked, nothing) refl
        | inr (text, recorded) ↦ elim (Option-cases (parse_int32 text)) [
          | inl unreadable ↦ rw (restore_marked, recorded, unreadable) refl
          | inr (original, read) ↦
              rw (restore_marked, recorded, read) (deployment_at-restore_to name original w d here)
        ]
      ]

  -- A restore leaves the Deployments of all other keys as they are, whatever calls fail.
  pub deployment_at-restore_other :
      (w : O.World) → deployment_at O (restore O ns n w).1 ns' n' ≡ deployment_at O w ns' n'
  unfolding restore ◌>>=◌
  deployment_at-restore_other w =
      let get = O.get_deployment ns n in
      let kept = deployment_at-Reads O get w ns' n' (L.get_deployment-reads ns n) in
      elim (Result-cases (get w).0) [
        | inr (e, failing) ↦ rw failing kept
        | inl (d, got) ↦
            let here =
              deployment_at-Reads O get w ns n (L.get_deployment-reads ns n)
              ∙ L.get_deployment_lem w ns n d got in
            elim (Bool-cases (is_scaled_down_by_operator d)) [
              | inl mark ↦ rw (got, mark) (deployment_at-restore_marked n (get w).1 d here ∙ kept)
              | inr bare ↦ rw (got, bare) kept
            ]
      ]
