-- ===== src/Controller/Enforce/Frame.antt =====
-- What the steps of `enforce` do to the Deployments of the cluster: the detection, the filter, the
-- status and the notification change none of them.
use namespace_cost_governor.Base.{String, Option, Bool, not, nat_beq, List, [], ◌∷◌, ◌==◌, ◌&&◌}
use namespace_cost_governor.Base.Keeps.{
  Keeps, Keeps-bind, Keeps-if, Keeps-pure, Keeps-wrapping, Keeps-attempt, Keeps-of_result,
  Keeps-throw,
}
use namespace_cost_governor.Base.Int.{ℤ}
use namespace_cost_governor.Go.Float.{Float64}
use namespace_cost_governor.Api.{NamespaceBudget, NamespaceBudgetStatus, Exclusion}
use namespace_cost_governor.Api.Kube.{Deployment}
use namespace_cost_governor.Idle.{IdleWorkload}
use namespace_cost_governor.Idle.Exclusion.{is_excluded}
use namespace_cost_governor.Actions.Notify.{build_message, send_slack}
use namespace_cost_governor.Outside.{Outside}
use namespace_cost_governor.Outside.Message.{SlackMessage}
use namespace_cost_governor.Outside.Frame.{
  Holds, retry_on_conflict-Keeps, clock-Holds, get_deployment-Holds, get_budget-Holds,
  http_post-Holds, update_budget_status-Holds,
}
use namespace_cost_governor.Outside.Laws.{IsLawful}
use namespace_cost_governor.Controller.{Reconciler}
use namespace_cost_governor.Controller.Conditions.{status_with}
use namespace_cost_governor.Controller.Enforce.{
  write_status, update_status, notify_step, filter_excluded,
}

module _ {F : Float64} (O : Outside F) (L : IsLawful O) (ns n : String)
    (o : Option Deployment) where
  -- Dropping the excluded workloads leaves every Deployment as it is.
  pub filter_excluded-Holds :
      (exs : List Exclusion) (ws : List IdleWorkload)
      → Keeps (Holds O ns n o) (filter_excluded O exs ws)
  unfolding filter_excluded
  filter_excluded-Holds exs [] = Keeps-pure _
  filter_excluded-Holds exs (w ∷ ws) =
      let rest = filter_excluded-Holds exs ws in
      Keeps-if (is_excluded w.name exs) _ _ (λ _. rest)
        (λ _.
          Keeps-bind _ _ (Keeps-attempt _ (get_deployment-Holds O ns n o L w.namespace w.name))
            (λ fetched. Keeps-bind _ _ rest (λ a. Keeps-pure _)))

  pub write_status-Holds :
      (b : NamespaceBudget) (status : NamespaceBudgetStatus)
      → Keeps (Holds O ns n o) (write_status O b status)
  unfolding write_status
  write_status-Holds b status =
      Keeps-bind _ _ (get_budget-Holds O ns n o L b.namespace b.name)
        (λ latest. update_budget_status-Holds O ns n o L _)

  -- Writing the status leaves every Deployment as it is, however often it is tried.
  pub update_status-Holds :
      (b : NamespaceBudget) (phase : String) (percent : ℤ)
      → Keeps (Holds O ns n o) (update_status O b phase percent)
  unfolding update_status
  update_status-Holds b phase percent = Keeps-bind _ _ (clock-Holds O ns n o L) (λ now.
      Keeps-bind _ _
        (retry_on_conflict-Keeps O L (Holds O ns n o) _
          (write_status-Holds b (status_with phase percent now b.status)))
        (λ u. Keeps-pure (record b { status = status_with phase percent now b.status })))

  send_slack-Holds :
      (url : String) (msg : SlackMessage) → Keeps (Holds O ns n o) (send_slack O url msg)
  unfolding send_slack
  send_slack-Holds url msg = Keeps-bind _ _ (Keeps-of_result _) (λ body.
      Keeps-bind _ _ (Keeps-of_result _) (λ req.
        Keeps-bind _ _ (Keeps-wrapping _ _ (http_post-Holds O ns n o L req))
          (λ code. Keeps-if (not (nat_beq code 200)) _ _ (λ _. Keeps-throw _) (λ _. Keeps-pure _))))

  -- Notifying leaves every Deployment as it is.
  pub notify_step-Holds :
      (r : Reconciler F) (changed : Bool) (namespace phase : String) (percent : ℤ)
      (names : List String)
      → Keeps (Holds O ns n o) (notify_step O r changed namespace phase percent names)
  unfolding notify_step
  notify_step-Holds r changed namespace phase percent names =
      Keeps-if (changed && not (r.slack_webhook_url == "")) _ _
        (λ _.
          Keeps-bind _ _
            (Keeps-attempt _
              (send_slack-Holds r.slack_webhook_url (build_message namespace phase percent names)))
            (λ u. Keeps-pure _))
        (λ _. Keeps-pure _)
