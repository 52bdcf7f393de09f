-- ===== src/Actions/ScaleDown/Others.antt =====
-- A scale-down changes no Deployment but its own.
use namespace_cost_governor.Base.{
  String, Option, some, ◌≡◌, ◌∙◌, inl, inr, Result-cases, ap, wrapping, world->>-pure, ◌>>=◌,
  Bool-cases,
}
use namespace_cost_governor.Base.Int.{pos}
use namespace_cost_governor.Base.Keeps.{Keeps}
use namespace_cost_governor.Go.Float.{Float64}
use namespace_cost_governor.Api.Kube.{Deployment}
use namespace_cost_governor.Outside.{Outside, clock}
use namespace_cost_governor.Outside.Frame.{Holds}
use namespace_cost_governor.Outside.Laws.{IsLawful, deployment_at}
use namespace_cost_governor.Outside.Patch.{
  deployment_at-Reads, deployment_at-patch_other, patch-Patched, done, failed, lost,
}
use namespace_cost_governor.Idle.{IdleWorkload}
use namespace_cost_governor.Actions.ScaleDown.{
  marked, with_replicas, mark_and_scale, scale_down, is_scaled_down_by_operator, at_zero,
}

module _ {F : Float64} (O : Outside F) (L : IsLawful O) {ns n ns' n' : String}
    (other : (ns ≡ ns') × (n ≡ n') → ⊥) where
  deployment_at-mark_and_scale :
      (name : String) (w : O.World) (d : Deployment)
      → deployment_at O w ns n ≡ some d
      → deployment_at O (mark_and_scale O name d w).1 ns' n' ≡ deployment_at O w ns' n'
  unfolding mark_and_scale
  deployment_at-mark_and_scale name w d here =
      let at = O.calendar.format_rfc3339_utc (O.now w).0 in
      let w1 = (O.now w).1 in
      let here1 = deployment_at-Reads O (clock O) w ns n L.clock-reads ∙ here in
      let key = L.stored_key w ns n d here in
      let first =
        deployment_at-patch_other O L w1 ns n ns' n' d (marked at d) key.0 key.1 other
        ∙ deployment_at-Reads O (clock O) w ns' n' L.clock-reads in
      elim (patch-Patched O L w1 ns n d (marked at d) here1) [
        | failed e r o ↦ rw r first
        | lost e d' r o same ↦ rw r first
        | done d1 r o same ↦
            let key1 = L.stored_key _ ns n d1 o in
            rw r (
              ap (λ v. deployment_at O v ns' n')
                (world->>-pure (wrapping _ (O.patch_deployment d1 (with_replicas (pos 0) d1))) tt _)
              ∙ deployment_at-patch_other O L _ ns n ns' n' d1 (with_replicas (pos 0) d1) key1.0
                  key1.1 other
              ∙ first)
      ]

-- A scale-down leaves the Deployments of all other keys as they are, whatever calls fail.
pub scale_down-Holds_other :
    {F : Float64} (O : Outside F) (L : IsLawful O) (ns' n' : String) (o : Option Deployment)
    (x : IdleWorkload)
    → ((x.namespace ≡ ns') × (x.name ≡ n') → ⊥)
    → Keeps (Holds O ns' n' o) (scale_down O x)
unfolding scale_down ◌>>=◌
scale_down-Holds_other O L ns' n' o x other = record {
  at = λ w h.
      let get = O.get_deployment x.namespace x.name in
      let kept =
        deployment_at-Reads O get w ns' n' (L.get_deployment-reads x.namespace x.name) ∙ h in
      elim (Result-cases (get w).0) [
        | inr (e, failing) ↦ rw failing kept
        | inl (d, got) ↦
            let here =
              deployment_at-Reads O get w x.namespace x.name
                (L.get_deployment-reads x.namespace x.name)
              ∙ L.get_deployment_lem w x.namespace x.name d got in
            elim (Bool-cases (is_scaled_down_by_operator d)) [
              | inl marked ↦ rw (got, marked) kept
              | inr unmarked ↦ elim (Bool-cases (at_zero d)) [
                | inl zero ↦ rw (got, unmarked, zero) kept
                | inr runs ↦
                    rw (got, unmarked, runs)
                      (deployment_at-mark_and_scale O L other x.name (get w).1 d here ∙ kept)
              ]
            ]
      ];
}
