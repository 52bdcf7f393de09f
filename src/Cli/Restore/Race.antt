-- ===== src/Cli/Restore/Race.antt =====
-- A run of the restore command while the operator scales a Deployment down.
use mathlib.Core.Option.{some-injective}
use namespace_cost_governor.Base.{ap, sym, String, some, false, ◌≡◌, ◌∙◌, ok}
use namespace_cost_governor.Go.Float.{Float64}
use namespace_cost_governor.Api.Kube.{Deployment}
use namespace_cost_governor.Outside.{Outside}
use namespace_cost_governor.Outside.Laws.{IsLawful, deployment_at}
use namespace_cost_governor.Outside.Stale.{MergesCount}
use namespace_cost_governor.Idle.{IdleWorkload}
use namespace_cost_governor.Actions.ScaleDown.{
  annotation_scaled_down_by, mark, scale_to_zero, is_scaled_down_by_operator, at_zero,
}
use namespace_cost_governor.Actions.ScaleDown.Annotations.{is_scaled_down_by_operator-marked}
use namespace_cost_governor.Actions.Life.Race.{
  Forgotten, forgotten, scale_to_zero-Forgotten, mark-stored, at_zero-cong, replicas-marked,
  Steps-unmarked,
}
use namespace_cost_governor.Cli.Console.{Console}
use namespace_cost_governor.Cli.Console.Apart.{IsApart}
use namespace_cost_governor.Cli.Restore.{restore_cmd}
use namespace_cost_governor.Cli.Restore.Life.{restore_cmd-Steps}
use namespace_cost_governor.Cli.Restore.Spared.{restore_cmd-Holds_bare}

module _ {F : Float64} (O : Outside F) (L : IsLawful O) (M : MergesCount O) (S : Console O.World)
    (A : IsApart O S) where
  -- A run of the command leaves what it cannot know.
  kept-Forgotten :
      (ns n arg : String) (w : O.World)
      → Forgotten (deployment_at O w ns n)
      → Forgotten (deployment_at O (restore_cmd O S arg w).1 ns n)
  kept-Forgotten ns n arg w (forgotten d at zero bare gone) =
      forgotten d ((restore_cmd-Holds_bare O L S A ns n d bare arg).at w at) zero bare gone

  -- Let a run of the restore command come between the two patches of a scale-down of a running,
  -- unmarked Deployment, and take the mark away. If neither patch fails, the Deployment ends at 0
  -- without the mark and without the record of its count, and a later run of the command leaves it
  -- so. This asks that a patch that changes the count alone leaves the rest as the server holds it,
  -- and that the terminal and the configuration of the client are apart from the cluster.
  pub restore_cmd-between-Forgotten :
      (w : O.World) (x : IdleWorkload) (d annotated restored : Deployment) (arg later : String)
      → deployment_at O w x.namespace x.name ≡ some d
      → at_zero d ≡ false
      → let first = mark O x.name d w in
        let between = restore_cmd O S arg first.1 in
        let last = scale_to_zero O x.name annotated between.1 in
        first.0 ≡ ok annotated
        → deployment_at O between.1 x.namespace x.name ≡ some restored
        → is_scaled_down_by_operator restored ≡ false
        → last.0 ≡ ok tt
        → Forgotten (deployment_at O last.1 x.namespace x.name)
          × Forgotten (deployment_at O (restore_cmd O S later last.1).1 x.namespace x.name)
  restore_cmd-between-Forgotten w x d annotated restored arg later stored runs answered back bare
        scaled =
      let at = O.calendar.format_rfc3339_utc (O.now w).0 in
      let first = (mark O x.name d w).1 in
      let between = (restore_cmd O S arg first).1 in
      let (stored1, same) =
        mark-stored O L M x.name x.namespace x.name w d annotated stored answered in
      let key = L.stored_key first x.namespace x.name annotated stored1 in
      let still = at_zero-cong annotated d (same.replicas ∙ replicas-marked at d) ∙ runs in
      let signed =
        is_scaled_down_by_operator-marked at d annotated
          (same.annotations annotation_scaled_down_by) in
      let (e, stored2, steps) =
        restore_cmd-Steps O L S A arg x.namespace x.name annotated first stored1 in
      let same2 = some-injective _ _ (sym stored2 ∙ back) in
      let unsigned = ap is_scaled_down_by_operator same2 ∙ bare in
      let (f, taken) = Steps-unmarked steps signed unsigned in
      let end =
        scale_to_zero-Forgotten O L M x.name x.namespace x.name between annotated e f key.0 key.1
          still stored2 taken scaled in
      (
        end,
        kept-Forgotten x.namespace x.name later (scale_to_zero O x.name annotated between).1 end,
      )
