-- ===== src/Actions/ScaleDown/Answered.antt =====
-- A scale-down and a restore whose calls are answered.
use namespace_cost_governor.Base.{String, some, true, false, ◌≡◌, refl, ok, ◌>>=◌}
use namespace_cost_governor.Base.Int.{ℤ, pos}
use namespace_cost_governor.Go.Float.{Float64}
use namespace_cost_governor.Go.Strconv.{parse_int32}
use namespace_cost_governor.Api.Kube.{Deployment, annotation}
use namespace_cost_governor.Outside.{Outside}
use namespace_cost_governor.Idle.{IdleWorkload}
use namespace_cost_governor.Actions.ScaleDown.{
  annotation_original_replicas, marked, unmarked, with_replicas, mark_and_scale, scale_down,
  restore_to, restore_marked, restore, is_scaled_down_by_operator, at_zero,
}

module _ {F : Float64} (O : Outside F) where
  -- A scale-down of a running, unmarked Deployment returns no error when its read and its two
  -- patches are answered.
  pub scale_down-answered :
      (w : O.World) (x : IdleWorkload) (d d1 d2 : Deployment)
      → is_scaled_down_by_operator d ≡ false
      → at_zero d ≡ false
      → (O.get_deployment x.namespace x.name w).0 ≡ ok d
      → let now = O.now (O.get_deployment x.namespace x.name w).1 in
        let first = O.patch_deployment d (marked (O.calendar.format_rfc3339_utc now.0) d) now.1 in
        first.0 ≡ ok d1
        → (O.patch_deployment d1 (with_replicas (pos 0) d1) first.1).0 ≡ ok d2
        → (scale_down O x w).0 ≡ ok tt
  unfolding scale_down mark_and_scale ◌>>=◌
  scale_down-answered w x d d1 d2 fresh runs got one two = rw (got, fresh, runs, one, two) refl

  -- A restore of a marked Deployment with a readable count returns no error when its read and its
  -- two patches are answered.
  pub restore-answered :
      (w : O.World) (ns n text : String) (original : ℤ) (d d1 d2 : Deployment)
      → is_scaled_down_by_operator d ≡ true
      → annotation annotation_original_replicas d ≡ some text
      → parse_int32 text ≡ some original
      → (O.get_deployment ns n w).0 ≡ ok d
      → let first = O.patch_deployment d (with_replicas original d) (O.get_deployment ns n w).1 in
        first.0 ≡ ok d1
        → (O.patch_deployment d1 (unmarked d1) first.1).0 ≡ ok d2
        → (restore O ns n w).0 ≡ ok tt
  unfolding restore restore_marked restore_to ◌>>=◌
  restore-answered w ns n text original d d1 d2 mark recorded read got one two =
      rw (got, mark, restore_marked, recorded, read, one, two) refl
