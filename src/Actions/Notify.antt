-- ===== src/Actions/Notify.antt =====
-- internal/actions/notify.go
use namespace_cost_governor.Base.{
  String, ◌<>◌, List, [], ◌∷◌, Bool, true, false, not, ◌||◌, ◌==◌, ltb, nat_beq, length,
  if◌then◌else◌, failure, Exec, of_result, pure, throw, wrapping, ◌>>=◌, wrap_err,
}
use namespace_cost_governor.Base.Int.{ℤ, pos}
use namespace_cost_governor.Go.Float.{Float64}
use namespace_cost_governor.Go.Strconv.{format_int}
use namespace_cost_governor.Go.Strings.{join}
use namespace_cost_governor.Outside.{Outside}
use namespace_cost_governor.Outside.Message.{SlackMessage, SlackField}

abbrev field : String → String → Bool → SlackField
field title value short = record { title = title; value = value; short = short }

unfoldable pub build_message : String → String → ℤ → List String → SlackMessage
build_message namespace phase budget_percent affected =
    let color = if phase == "Exceeded" || phase == "Suspended" then "danger" else "warning" in
    let affected_str = if ltb 0 (length affected) then join affected ", " else "none" in
    record {
      text = "*[" <> (phase <> ("]* namespace `" <> (namespace <> "` budget alert")));
      attachments =
          record {
            color = color;
            fields =
                field "Namespace" namespace true
                ∷ field "Phase" phase true
                ∷ field "Budget used" (format_int budget_percent <> "%") true
                ∷ field "Workloads affected" affected_str false
                ∷ [];
          }
          ∷ [];
    }

module _ {F : Float64} (O : Outside F) where
  unfoldable pub send_slack : String → SlackMessage → Exec O.World Unit
  send_slack webhook_url msg = do
    body ← of_result (wrap_err "marshaling slack message: " (O.marshal msg))
    req ← of_result (wrap_err "building slack request: " (O.new_post webhook_url body))
    status_code ← wrapping "sending slack message: " (O.http_post req)
    if not (nat_beq status_code 200)
        then throw (failure ("slack returned non-200: " <> format_int (pos status_code)))
        else pure tt
