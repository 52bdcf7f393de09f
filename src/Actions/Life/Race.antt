-- ===== src/Actions/Life/Race.antt =====
-- A scale-down whose two patches another client comes between, as when the plugin is run while the
-- operator reconciles.
use mathlib.Core.Path.{subst}
use namespace_cost_governor.Base.{
  String, Option, some, none, true, false, ◌≡◌, ◌≢◌, refl, ap, ◌∙◌, ok, inl, inr, Result-cases,
  ◌>>=◌, arith,
}
use namespace_cost_governor.Base.Int.{ℤ, pos}
use namespace_cost_governor.Go.Float.{Float64}
use namespace_cost_governor.Api.Kube.{Deployment, annotation}
use namespace_cost_governor.Outside.{Outside, clock}
use namespace_cost_governor.Outside.Laws.{IsLawful, Same, deployment_at}
use namespace_cost_governor.Outside.Patch.{deployment_at-Reads, patch-Patched, done, failed, lost}
use namespace_cost_governor.Outside.Stale.{MergesCount}
use namespace_cost_governor.Actions.ScaleDown.{
  annotation_original_replicas, annotation_scaled_down_by, marked, unmarked, with_replicas, mark,
  scale_to_zero, is_scaled_down_by_operator, at_zero,
}
use namespace_cost_governor.Actions.ScaleDown.Annotations.{
  annotation-unmarked, annotation-with_replicas, is_scaled_down_by_operator-marked,
  is_scaled_down_by_operator-Same,
}
use namespace_cost_governor.Actions.ScaleDown.Restoring.{}
use namespace_cost_governor.Actions.Life.{Steps, marks, scales, returns, unmarks, here, next}

replicas-ne_zero : (d : Deployment) → at_zero d ≡ false → d.replicas ≢ some (pos 0)
unfolding at_zero
replicas-ne_zero d runs zero = ground arith

is_scaled_down_by_operator-absent :
    (d : Deployment)
    → annotation annotation_scaled_down_by d ≡ none
    → is_scaled_down_by_operator d ≡ false
unfolding is_scaled_down_by_operator
is_scaled_down_by_operator-absent d absent = rw (absent, is_scaled_down_by_operator)

pub at_zero-cong : (a b : Deployment) → a.replicas ≡ b.replicas → at_zero a ≡ at_zero b
unfolding at_zero
at_zero-cong a b e = ground arith

pub replicas-marked : (at : String) (d : Deployment) → (marked at d).replicas ≡ d.replicas
unfolding marked
replicas-marked at d = refl

still_marked :
    (d e : Deployment) (n : ℤ)
    → Same e (with_replicas n d)
    → is_scaled_down_by_operator e ≡ is_scaled_down_by_operator d
still_marked d e n same = is_scaled_down_by_operator-Same d e (
    same.annotations annotation_scaled_down_by
    ∙ annotation-with_replicas annotation_scaled_down_by n d)

-- By the diagram a marked Deployment loses its mark only by its removal.
pub Steps-unmarked :
    {d e : Deployment}
    → Steps d e
    → is_scaled_down_by_operator d ≡ true
    → is_scaled_down_by_operator e ≡ false
    → (f : Deployment) × Same e (unmarked f)
Steps-unmarked here signed bare = cc
Steps-unmarked {e = e} (next {e = f} s (marks at m z same)) signed bare =
    cc (is_scaled_down_by_operator-marked at f e (same.annotations annotation_scaled_down_by))
Steps-unmarked {e = e} (next {e = f} s (scales m r same)) signed bare =
    cc (still_marked f e (pos 0) same)
Steps-unmarked {e = e} (next {e = f} s (returns original m r same)) signed bare =
    cc (still_marked f e original same)
Steps-unmarked (next {e = f} s (unmarks original m r c same)) signed bare = (f, same)

-- `o` is a Deployment at 0 that carries neither the mark nor the count that it had.
pub data Forgotten (o : Option Deployment) : Type 0 where
  forgotten :
      (d : Deployment)
      → o ≡ some d
      → d.replicas ≡ some (pos 0)
      → is_scaled_down_by_operator d ≡ false
      → annotation annotation_original_replicas d ≡ none
      → Forgotten o

module _ {F : Float64} (O : Outside F) (L : IsLawful O) (M : MergesCount O) where
  -- Patch 2 from what patch 1 answered, on a Deployment that was restored in between.
  pub scale_to_zero-Forgotten :
      (name ns n : String) (w : O.World) (base stored restored_from : Deployment)
      → base.namespace ≡ ns
      → base.name ≡ n
      → at_zero base ≡ false
      → deployment_at O w ns n ≡ some stored
      → Same stored (unmarked restored_from)
      → (scale_to_zero O name base w).0 ≡ ok tt
      → Forgotten (deployment_at O (scale_to_zero O name base w).1 ns n)
  unfolding scale_to_zero ◌>>=◌
  scale_to_zero-Forgotten name ns n w base stored from in_ns named runs stored_now same fine =
      elim (Result-cases (O.patch_deployment base (with_replicas (pos 0) base) w).0) [
        | inr (e, failing) ↦ absurd (ground (arith, failing, fine))
        | inl (answer, r) ↦
            let law =
              M.patch_count w ns n base stored answer (pos 0) in_ns named stored_now
                (replicas-ne_zero base runs) r in
            let bare = λ (k : String).
              law.1.annotations k
              ∙ annotation-with_replicas k (pos 0) stored
              ∙ same.annotations k
              ∙ annotation-unmarked k from in
            rw r (
              forgotten answer law.0 law.1.replicas
                (is_scaled_down_by_operator-absent answer (bare annotation_scaled_down_by))
                (bare annotation_original_replicas))
      ]

  -- What patch 1 leaves when it returns no error.
  pub mark-stored :
      (name ns n : String) (w : O.World) (d annotated : Deployment)
      → deployment_at O w ns n ≡ some d
      → (mark O name d w).0 ≡ ok annotated
      → (deployment_at O (mark O name d w).1 ns n ≡ some annotated)
        × Same annotated (marked (O.calendar.format_rfc3339_utc (O.now w).0) d)
  unfolding mark
  mark-stored name ns n w d annotated stored_now answered =
      let at = O.calendar.format_rfc3339_utc (O.now w).0 in
      let here1 = deployment_at-Reads O (clock O) w ns n L.clock-reads ∙ stored_now in
      elim (patch-Patched O L (O.now w).1 ns n d (marked at d) here1) [
        | failed e r o ↦ absurd (ground (arith, r, answered))
        | lost e d' r o same ↦ absurd (ground (arith, r, answered))
        | done d1 r o same ↦
            let is_d1 : d1 ≡ annotated = ground (arith, r, answered) in
            (o ∙ ap some is_d1, subst (λ a. Same a (marked at d)) is_d1 same)
      ]
