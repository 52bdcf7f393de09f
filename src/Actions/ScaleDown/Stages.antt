-- ===== src/Actions/ScaleDown/Stages.antt =====
-- How far a scale-down gets, whichever calls fail.
use mathlib.Core.Option.{some-injective}
use namespace_cost_governor.Base.{
  sym, IsErr, String, Option, some, false, ◌≡◌, inl, inr, ◌∙◌, Result, Result-cases, ◌>>=◌,
}
use namespace_cost_governor.Base.Int.{pos}
use namespace_cost_governor.Go.Float.{Float64}
use namespace_cost_governor.Api.Kube.{Deployment}
use namespace_cost_governor.Outside.{Outside, clock}
use namespace_cost_governor.Outside.Patch.{
  Same-trans, Same-with_replicas, deployment_at-Reads, patch-Patched, done, failed, lost,
}
use namespace_cost_governor.Outside.Laws.{IsLawful, Same, deployment_at}
use namespace_cost_governor.Idle.{IdleWorkload}
use namespace_cost_governor.Actions.ScaleDown.{
  marked, with_replicas, mark_and_scale, scale_down, is_scaled_down_by_operator, at_zero,
}

-- What the server may hold of `d` when a scale-down of it returns `r`.
pub data Stage (d : Deployment) (r : Result (Unit {0})) (o : Option Deployment) : Type 0 where
  untouched : IsErr r → o ≡ some d → Stage d r o
  recorded :
      (at : String) (d' : Deployment) → IsErr r → o ≡ some d' → Same d' (marked at d) → Stage d r o
  scaled :
      (at : String) (d' : Deployment)
      → o ≡ some d'
      → Same d' (with_replicas (pos 0) (marked at d))
      → Stage d r o

module _ {F : Float64} (O : Outside F) (L : IsLawful O) where
  mark_and_scale-stage :
      (name ns n : String) (w : O.World) (d : Deployment)
      → deployment_at O w ns n ≡ some d
      → let r = mark_and_scale O name d w in Stage d r.0 (deployment_at O r.1 ns n)
  unfolding mark_and_scale
  mark_and_scale-stage name ns n w d here =
      let at = O.calendar.format_rfc3339_utc (O.now w).0 in
      let here1 = deployment_at-Reads O (clock O) w ns n L.clock-reads ∙ here in
      elim (patch-Patched O L (O.now w).1 ns n d (marked at d) here1) [
        | failed e r o ↦ untouched (rw r tt) (rw r o)
        | lost e d' r o same ↦ recorded at d' (rw r tt) (rw r o) same
        | done d1 r o same ↦ elim (patch-Patched O L _ ns n d1 (with_replicas (pos 0) d1) o) [
          | failed e r' o' ↦ recorded at d1 (rw (r, r') tt) (rw (r, r') o') same
          | lost e d' r' o' same' ↦
              scaled at d' (rw (r, r') o') (Same-trans same' (Same-with_replicas (pos 0) same))
          | done d2 r' o' same' ↦
              scaled at d2 (rw (r, r') o') (Same-trans same' (Same-with_replicas (pos 0) same))
        ]
      ]

  -- A scale-down of a Deployment that runs and is not marked, whatever calls fail and whatever
  -- answers are lost: if it returns no error the server holds the Deployment with replicas 0 and
  -- the four annotations; if it returns one, the server holds that, or the Deployment with the
  -- annotations and its replicas as before, or the Deployment unchanged. So replicas are never 0
  -- without the record of the count before.
  pub scale_down-Stage :
      (w : O.World) (x : IdleWorkload) (d : Deployment)
      → deployment_at O w x.namespace x.name ≡ some d
      → is_scaled_down_by_operator d ≡ false
      → at_zero d ≡ false
      → let r = scale_down O x w in Stage d r.0 (deployment_at O r.1 x.namespace x.name)
  unfolding scale_down ◌>>=◌
  scale_down-Stage w x d here unmarked runs =
      let get = O.get_deployment x.namespace x.name in
      let kept =
        deployment_at-Reads O get w x.namespace x.name (L.get_deployment-reads x.namespace x.name)
        ∙ here in
      elim (Result-cases (get w).0) [
        | inr (e, failing) ↦ untouched (rw failing tt) (rw failing kept)
        | inl (d', got) ↦
            let same =
              some-injective _ _ (sym (L.get_deployment_lem w x.namespace x.name d' got) ∙ here) in
            rw (got, same, unmarked, runs)
              (mark_and_scale-stage x.name x.namespace x.name (get w).1 d kept)
      ]
