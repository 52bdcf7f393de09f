-- ===== src/Controller/Enforce.antt =====
-- Steps 7 to 11 of `Reconcile`: idle detection, the status, scale-down, suspension, notification.
pub mod Frame
pub mod Spared
pub mod Calm
pub mod Silent
pub mod Unnotified
pub mod Written
pub mod Unread
use namespace_cost_governor.Base.{
  String, ◌<>◌, ◌==◌, ◌&&◌, not, Bool, true, false, List, [], ◌∷◌, ◌++◌, if◌then◌else◌, Result, ok,
  err, Exec, of_result, pure, throw, wrap, wrapping, attempt, ◌>>=◌, ◌>>◌,
}
use namespace_cost_governor.Base.Int.{ℤ}
use namespace_cost_governor.Go.Float.{Float64}
use namespace_cost_governor.Go.Time.{Time, Duration}
use namespace_cost_governor.Api.{NamespaceBudget, NamespaceBudgetStatus, Exclusion}
use namespace_cost_governor.Outside.{Outside, clock}
use namespace_cost_governor.Idle.{IdleWorkload}
use namespace_cost_governor.Idle.Detector.{detect_idle}
use namespace_cost_governor.Idle.Exclusion.{is_excluded, is_label_excluded}
use namespace_cost_governor.Actions.ScaleDown.{scale_down}
use namespace_cost_governor.Actions.Suspend.{suspend_all}
use namespace_cost_governor.Actions.Notify.{build_message, send_slack}
use namespace_cost_governor.Controller.{Reconciler, phase_suspended}
use namespace_cost_governor.Controller.Phase.{under_pressure}
use namespace_cost_governor.Controller.Conditions.{status_with}
use namespace_cost_governor.Controller.IdleStatus.{to_idle_workload_status}

module _ {F : Float64} (O : Outside F) where
  -- The loop that drops the excluded workloads, by name or by the labels of the fetched object.
  unfoldable pub filter_excluded :
      List Exclusion → List IdleWorkload → Exec O.World (List IdleWorkload)
  filter_excluded exclusions [] = pure []
  filter_excluded exclusions (w ∷ workloads) =
      let rest = filter_excluded exclusions workloads in
      if is_excluded w.name exclusions then rest else (do
        fetched ← attempt (O.get_deployment w.namespace w.name)
        actionable ← rest
        pure (elim fetched [
          | err e ↦ actionable
          | ok d ↦ if is_label_excluded O d exclusions then actionable else w ∷ actionable
        ]))

  unfoldable pub parse_window : String → Result Duration
  parse_window value = elim (O.calendar.parse_duration value) [
    | ok d ↦ ok d
    | err e ↦ err (wrap ("invalid duration " <> (value <> ": ")) e)
  ]

  -- A failed detection leaves the status and finds nothing.
  unfoldable pub actionable_of :
      NamespaceBudget
      → Result (List IdleWorkload)
      → Exec O.World (NamespaceBudget × List IdleWorkload)
  unfolding ◌>>=◌
  actionable_of b (err e) = pure (b, [])
  actionable_of b (ok idle_workloads) = do
    actionable ← filter_excluded b.spec.exclusions idle_workloads
    pure (
      record b {
        status = record b.status {
          idle_workloads = to_idle_workload_status actionable b.status.idle_workloads;
        };
      },
      actionable,
    )

  -- Step 7 under pressure
  unfoldable pub detect :
      Reconciler F → String → NamespaceBudget → Exec O.World (NamespaceBudget × List IdleWorkload)
  unfolding parse_window
  detect r namespace b = do
    window ← of_result (parse_window b.spec.idle_threshold.window)
    detected ← attempt (
        detect_idle O r.prometheus_client namespace (F.of_int b.spec.idle_threshold.cpu_percent)
          window)
    actionable_of b detected

  unfoldable pub detect_actionable :
      Reconciler F
      → String
      → String
      → NamespaceBudget
      → Exec O.World (NamespaceBudget × List IdleWorkload)
  unfolding detect
  detect_actionable r namespace phase b =
      if under_pressure phase then detect r namespace b else pure (b, [])

  -- The status is computed once; each round of the retry writes it to the latest object.
  unfoldable pub write_status : NamespaceBudget → NamespaceBudgetStatus → Exec O.World Unit
  unfolding ◌>>=◌
  write_status b desired_status = do
    latest ← O.get_budget b.namespace b.name
    O.update_budget_status (record latest { status = desired_status })

  -- `updateStatus`, with the budget as it leaves it.
  unfoldable pub update_status : NamespaceBudget → String → ℤ → Exec O.World NamespaceBudget
  unfolding write_status
  update_status b phase budget_percent = do
    now ← clock O
    let desired = status_with phase budget_percent now b.status
    O.retry_on_conflict (write_status b desired)
    pure (record b { status = desired })

  -- The loop of step 9: the names of the workloads whose scale-down returned no error.
  unfoldable pub scale_down_each : List IdleWorkload → Exec O.World (List String)
  scale_down_each [] = pure []
  scale_down_each (w ∷ actionable) = do
    scaled ← attempt (scale_down O w)
    names ← scale_down_each actionable
    pure (elim scaled [ ok a ↦ w.name ∷ names | err e ↦ names ])

  -- Step 10. A failed suspension has no names.
  unfoldable pub suspend_step : String → String → List Exclusion → Exec O.World (List String)
  suspend_step phase namespace exclusions =
      if phase == phase_suspended
      then (do
        suspended ← attempt (suspend_all O exclusions namespace)
        pure (elim suspended [ ok names ↦ names | err e ↦ [] ]))
      else pure []

  -- Step 11
  unfoldable pub notify_step :
      Reconciler F → Bool → String → String → ℤ → List String → Exec O.World Unit
  notify_step r phase_changed namespace phase budget_percent affected_names =
      if phase_changed && not (r.slack_webhook_url == "")
      then (do
        attempt (
            send_slack O r.slack_webhook_url
              (build_message namespace phase budget_percent affected_names))
        pure tt)
      else pure tt

  unfoldable pub enforce :
      Reconciler F → String → String → String → ℤ → NamespaceBudget → Exec O.World Unit
  enforce r namespace previous_phase phase budget_percent b = do
    (b1, actionable) ← detect_actionable r namespace phase b
    b2 ← update_status b1 phase budget_percent
    scaled ← scale_down_each (if under_pressure phase then actionable else [])
    suspended ← suspend_step phase namespace b2.spec.exclusions
    notify_step r (not (previous_phase == phase)) namespace phase b2.status.budget_percent
        (scaled ++ suspended)
