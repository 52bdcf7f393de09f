-- ===== src/Actions/ScaleDown/Restoring.antt =====
-- How far a restore gets, whichever calls fail.
use mathlib.Core.Option.{some-injective}
use namespace_cost_governor.Base.{
  String, Option, some, none, true, ◌≡◌, sym, ◌∙◌, inl, inr, Result, IsErr, Result-cases, ◌>>=◌,
  if◌then◌else◌, ap,
}
use namespace_cost_governor.Base.Int.{ℤ}
use namespace_cost_governor.Go.Float.{Float64}
use namespace_cost_governor.Go.Strconv.{parse_int32}
use namespace_cost_governor.Api.Kube.{Deployment, annotation}
use namespace_cost_governor.Outside.{Outside}
use namespace_cost_governor.Outside.Laws.{IsLawful, Same, deployment_at}
use namespace_cost_governor.Outside.Patch.{
  deployment_at-Reads, patch-Patched, done, failed, lost, Same-trans,
}
use namespace_cost_governor.Actions.ScaleDown.{
  annotation_original_replicas, with_replicas, unmarked, restore_to, restore_marked, restore,
  is_scaled_down_by_operator,
}
use namespace_cost_governor.Actions.ScaleDown.Annotations.{is_ours, annotation-unmarked}

pub Same-unmarked : {a b : Deployment} → Same a b → Same (unmarked a) (unmarked b)
unfolding unmarked
Same-unmarked {a} {b} s = record {
  name = s.name;
  namespace = s.namespace;
  labels = s.labels;
  annotations = λ k.
      annotation-unmarked k a
      ∙ ap (λ o. if is_ours k then none else o) (s.annotations k)
      ∙ sym (annotation-unmarked k b);
  replicas = s.replicas;
}

-- What the server may hold of `d` when a restore of it to `original` replicas returns `r`.
pub data RestoreStage (d : Deployment) (original : ℤ) (r : Result (Unit {0}))
    (o : Option Deployment) : Type 0 where
  untouched : IsErr r → o ≡ some d → RestoreStage d original r o
  replicas_set :
      (d' : Deployment)
      → IsErr r
      → o ≡ some d'
      → Same d' (with_replicas original d)
      → RestoreStage d original r o
  restored :
      (d' : Deployment)
      → o ≡ some d'
      → Same d' (unmarked (with_replicas original d))
      → RestoreStage d original r o

module _ {F : Float64} (O : Outside F) (L : IsLawful O) where
  restore_to-stage :
      (name ns n : String) (original : ℤ) (w : O.World) (d : Deployment)
      → deployment_at O w ns n ≡ some d
      → let r = restore_to O name original d w in
        RestoreStage d original r.0 (deployment_at O r.1 ns n)
  unfolding restore_to
  restore_to-stage name ns n original w d here =
      elim (patch-Patched O L w ns n d (with_replicas original d) here) [
        | failed e r o ↦ untouched (rw r tt) (rw r o)
        | lost e d' r o same ↦ replicas_set d' (rw r tt) (rw r o) same
        | done d1 r o same ↦ elim (patch-Patched O L _ ns n d1 (unmarked d1) o) [
          | failed e r' o' ↦ replicas_set d1 (rw (r, r') tt) (rw (r, r') o') same
          | lost e d' r' o' same' ↦
              restored d' (rw (r, r') o') (Same-trans same' (Same-unmarked same))
          | done d2 r' o' same' ↦
              restored d2 (rw (r, r') o') (Same-trans same' (Same-unmarked same))
        ]
      ]

  -- A restore of a Deployment that carries the operator's annotation and a count that can be read,
  -- whatever calls fail and whatever answers are lost: if it returns no error the server holds the
  -- Deployment with that count and without the four annotations; if it returns one, the server
  -- holds that, or the Deployment with that count and its annotations, or the Deployment unchanged.
  pub restore-RestoreStage :
      (ns n : String) (w : O.World) (d : Deployment) (text : String) (original : ℤ)
      → deployment_at O w ns n ≡ some d
      → is_scaled_down_by_operator d ≡ true
      → annotation annotation_original_replicas d ≡ some text
      → parse_int32 text ≡ some original
      → let r = restore O ns n w in RestoreStage d original r.0 (deployment_at O r.1 ns n)
  unfolding restore ◌>>=◌
  restore-RestoreStage ns n w d text original here marked recorded read =
      let get = O.get_deployment ns n in
      let kept = deployment_at-Reads O get w ns n (L.get_deployment-reads ns n) ∙ here in
      elim (Result-cases (get w).0) [
        | inr (e, failing) ↦ untouched (rw failing tt) (rw failing kept)
        | inl (d', got) ↦
            let same = some-injective _ _ (sym (L.get_deployment_lem w ns n d' got) ∙ here) in
            rw (got, same, marked, restore_marked, recorded, read, same)
              (restore_to-stage n ns n original (get w).1 d kept)
      ]
