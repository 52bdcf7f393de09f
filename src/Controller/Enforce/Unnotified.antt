-- ===== src/Controller/Enforce/Unnotified.antt =====
-- What a notification leaves alone, whether it is sent or fails.
use namespace_cost_governor.Base.{
  String, Bool, not, ◌==◌, ◌&&◌, List, ◌++◌, refl, inl, inr, Bool-cases, pure, throw, nat_beq,
  failure, ◌<>◌, ◌>>=◌,
}
use namespace_cost_governor.Base.Int.{ℤ, pos}
use namespace_cost_governor.Go.Strconv.{format_int}
use namespace_cost_governor.Base.Keeps.{
  Keeps-bind, Keeps-pure, Keeps-throw, Keeps-of_result, Keeps-wrapping, Keeps-if,
}
use namespace_cost_governor.Go.Float.{Float64}
use namespace_cost_governor.Api.{NamespaceBudget}
use namespace_cost_governor.Outside.{Outside}
use namespace_cost_governor.Outside.Alike.{Alike, Alike-refl, Alike-same, Alike-bind}
use namespace_cost_governor.Outside.Laws.{IsLawful, Reads}
use namespace_cost_governor.Outside.Frame.{Reads-of_IsIn, http_post-IsIn}
use namespace_cost_governor.Outside.Message.{SlackMessage}
use namespace_cost_governor.Actions.Notify.{send_slack, build_message}
use namespace_cost_governor.Controller.{Reconciler}
use namespace_cost_governor.Controller.Enforce.{
  detect, detect_actionable, notify_step, update_status, suspend_step, enforce,
}
use namespace_cost_governor.Controller.Enforce.Silent.{without_webhook}

module _ {F : Float64} (O : Outside F) where
  module _ (L : IsLawful O) where
    send_slack-Reads : (url : String) (msg : SlackMessage) → Reads O (send_slack O url msg)
    unfolding send_slack
    send_slack-Reads url msg = Reads-of_IsIn O (send_slack O url msg) (λ state.
        Keeps-bind _ _ (Keeps-of_result _) (λ body. Keeps-bind _ _ (Keeps-of_result _) (λ req.
          Keeps-bind _ _
            (Keeps-wrapping "sending slack message: " (O.http_post req)
              (http_post-IsIn O state L req))
            (λ code.
              Keeps-if (not (nat_beq code 200))
                (throw (failure ("slack returned non-200: " <> format_int (pos code)))) (pure tt)
                (λ _. Keeps-throw _) (λ _. Keeps-pure _)))))

    -- A step that sends, or does not, returns no error and reads.
    notify_step-Alike :
        (r : Reconciler F) (changed : Bool) (namespace phase : String) (percent : ℤ)
        (names : List String)
        → Alike O (notify_step O r changed namespace phase percent names) (pure tt)
    unfolding notify_step ◌>>=◌
    notify_step-Alike r changed namespace phase percent names =
        elim (Bool-cases (changed && not (r.slack_webhook_url == ""))) [
          | inr quiet ↦ rw quiet (Alike-refl O (pure tt))
          | inl sends ↦ rw sends (record {
            result = λ w. refl;
            cluster =
                send_slack-Reads r.slack_webhook_url (build_message namespace phase percent names);
          })
        ]

    -- The phase and the webhook decide on a notification alone: steps 7 to 11 return what they
    -- return without a webhook, and leave the same cluster, whether or not a notification is sent,
    -- and whether or not it arrives.
    pub enforce-Alike :
        (r : Reconciler F) (namespace previous_phase phase : String) (percent : ℤ)
        (b : NamespaceBudget)
        → Alike O
            (enforce O r namespace previous_phase phase percent b)
            (enforce O (without_webhook r) namespace previous_phase phase percent b)
    unfolding enforce detect_actionable detect without_webhook
    enforce-Alike r namespace previous_phase phase percent b =
        Alike-bind O (detect_actionable O r namespace phase b) _ _ λ found.
          Alike-bind O (update_status O found.0 phase percent) _ _ λ b2.
            Alike-bind O _ _ _ λ scaled.
              Alike-bind O (suspend_step O phase namespace b2.spec.exclusions) _ _ λ suspended.
                Alike-same O
                  (notify_step-Alike r (not (previous_phase == phase)) namespace phase
                    b2.status.budget_percent (scaled ++ suspended))
                  (notify_step-Alike (without_webhook r) (not (previous_phase == phase)) namespace
                    phase b2.status.budget_percent (scaled ++ suspended))
