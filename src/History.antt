-- ===== src/History.antt =====
-- The program's runs in a row: reconciles of any budgets, by any reconcilers, and restore commands,
-- in any order and number, while the rest of the cluster changes as it likes.
use namespace_cost_governor.Base.{String, some, false, ◌≡◌, sym, ap, ◌∙◌}
use mathlib.Core.Option.{some-injective}
use namespace_cost_governor.Go.Float.{Float64}
use namespace_cost_governor.Api.Kube.{Deployment}
use namespace_cost_governor.Outside.{Outside}
use namespace_cost_governor.Outside.Laws.{IsLawful, deployment_at}
use namespace_cost_governor.Actions.ScaleDown.{is_scaled_down_by_operator, original_replicas}
use namespace_cost_governor.Actions.Life.{Steps, here, From-Steps}
use namespace_cost_governor.Actions.Life.Sound.{IsSound, intended, intended-bare}
use namespace_cost_governor.Actions.Life.Kept.{Kept, Steps-Kept}
use namespace_cost_governor.Controller.{Reconciler}
use namespace_cost_governor.Controller.Reconcile.{reconcile}
use namespace_cost_governor.Controller.Life.{reconcile-Steps}
use namespace_cost_governor.Cli.Console.{Console}
use namespace_cost_governor.Cli.Console.Apart.{IsApart}
use namespace_cost_governor.Cli.Restore.{restore_cmd}
use namespace_cost_governor.Cli.Restore.Life.{restore_cmd-Steps}

module _ {F : Float64} (O : Outside F) (S : Console O.World) where
  -- `w` has become the second world.
  pub data History (w : O.World) : O.World → Type 0 where
    start : History w w
    reconciled :
        {v : O.World} (r : Reconciler F) (namespace name : String)
        → History w v
        → History w (reconcile O r namespace name v).1
    restored : {v : O.World} (arg : String) → History w v → History w (restore_cmd O S arg v).1
    -- Time passes, and others write anything but Deployments.
    elsewhere :
        {v : O.World} (v' : O.World)
        → ((ns n : String) → deployment_at O v' ns n ≡ deployment_at O v ns n)
        → History w v
        → History w v'

  module _ (L : IsLawful O) (A : IsApart O S) (ns n : String) (d : Deployment) where
    history-Steps :
        {w v : O.World}
        → History w v
        → deployment_at O w ns n ≡ some d
        → (e : Deployment) × (deployment_at O v ns n ≡ some e) × Steps d e
    history-Steps start at = (d, at, here)
    history-Steps (reconciled {v} r namespace name past) at =
        let (c, at1, s) = history-Steps past at in
        From-Steps O ns n d c _ s (reconcile-Steps O L r namespace name ns n c v at1)
    history-Steps (restored {v} arg past) at =
        let (c, at1, s) = history-Steps past at in
        From-Steps O ns n d c _ s (restore_cmd-Steps O L S A arg ns n c v at1)
    history-Steps (elsewhere v' same past) at =
        let (c, at1, s) = history-Steps past at in (c, same ns n ∙ at1, s)

    -- Over any run of reconciles and restore commands, whichever calls fail in them, a sound
    -- Deployment stays there and sound, the count that it is meant to run with stays the same, and
    -- so do its name, its namespace, its labels and the annotations that are not the operator's.
    -- This asks that the terminal and the configuration of the client are apart from the cluster.
    pub history-Kept :
        {w v : O.World}
        → History w v
        → deployment_at O w ns n ≡ some d
        → IsSound d
        → (e : Deployment) × (deployment_at O v ns n ≡ some e) × Kept d e
    history-Kept past at sound =
        let (e, at', s) = history-Steps past at in (e, at', Steps-Kept d e sound s)

    -- A sound Deployment without the operator's mark that has no mark after such a run either has
    -- the replicas then that it had before (an unset count reads 1), whatever happened in between.
    -- This asks that the terminal and the configuration of the client are apart from the cluster.
    pub history-replicas :
        {w v : O.World} (e : Deployment)
        → History w v
        → deployment_at O w ns n ≡ some d
        → IsSound d
        → is_scaled_down_by_operator d ≡ false
        → deployment_at O v ns n ≡ some e
        → is_scaled_down_by_operator e ≡ false
        → original_replicas e ≡ original_replicas d
    history-replicas e past at sound bare at' bare' =
        let (e', stored, kept) = history-Kept past at sound in
        let same = some-injective _ _ (sym stored ∙ at') in
        some-injective _ _
          (sym (intended-bare e bare') ∙ ap intended (sym same) ∙ kept.count ∙ intended-bare d bare)
