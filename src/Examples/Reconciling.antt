-- ===== src/Examples/Reconciling.antt =====
-- The theorems on a reconcile at a budget of the namespace `payments`.
use namespace_cost_governor.Base.{
  ◌>>=◌, String, true, false, some, [], ◌∷◌, ◌≡◌, ◌*◌, inl, refl, ok,
}
use namespace_cost_governor.Base.Int.{pos}
use namespace_cost_governor.Base.Keeps.{Keeps}
use namespace_cost_governor.Go.Strconv.{parse_int32, format_int, format_nat}
use namespace_cost_governor.Actions.ScaleDown.{
  restore, is_scaled_down_by_operator, marked, unmarked, original_replicas,
}
use namespace_cost_governor.Api.Kube.{annotation, annotate, unannotate}
use namespace_cost_governor.Api.{Actions, NamespaceBudget, CostReport}
use namespace_cost_governor.Metrics.Prometheus.{Client, query_instant, do_request}
use namespace_cost_governor.Outside.Frame.{Holds}
use namespace_cost_governor.Outside.Laws.{deployment_at}
use namespace_cost_governor.Idle.Exclusion.{is_excluded}
use namespace_cost_governor.Report.{Generator}
use namespace_cost_governor.Report.Generate.{
  generate, generate_after, empty_status, report_name, first_of_last_month,
}
use namespace_cost_governor.Controller.{Reconciler}
use namespace_cost_governor.Controller.Phase.{determine_phase}
use namespace_cost_governor.Controller.Enforce.{enforce, update_status, write_status}
use namespace_cost_governor.Controller.Conditions.{
  status_with, set_condition, carry_transition, usage_warning, budget_exceeded, condition_status,
}
use namespace_cost_governor.Outside.{runs}
use namespace_cost_governor.Controller.Enforce.Written.{Written, update_status-Written}
use namespace_cost_governor.Controller.Enforce.Unread.{with_actions, enforce-with_actions}
use namespace_cost_governor.Controller.Enforce.Calm.{enforce-Holds_below}
use namespace_cost_governor.Controller.Lifecycle.{handle_deletion, cleanup, restore_each, finished}
use namespace_cost_governor.Controller.Lifecycle.Cleanup.{handle_deletion-Unmarked}
use namespace_cost_governor.Actions.ScaleDown.Restored.{Unmarked}
use namespace_cost_governor.Controller.Month.{
  init_since, month_boundary, since_parsed, reset_accumulated, reset_after, is_first_day,
  other_month, maybe_generate_report,
}
use namespace_cost_governor.Controller.Month.Reset.{Boundary, month_boundary-Boundary}
use namespace_cost_governor.Controller.Month.Lost.{month_boundary-Lost}
use namespace_cost_governor.Controller.Reconcile.{reconcile}
use namespace_cost_governor.Controller.Reconcile.Failing.{reconcile-QueryFails}
use namespace_cost_governor.Controller.Reconcile.Spared.{reconcile-spares}
use namespace_cost_governor.Examples.Memory.{World, whole_numbers, memory, day_length, thirty_days}
use namespace_cost_governor.Examples.Memory.Lawful.{memory-IsLawful}
use namespace_cost_governor.Examples.Scaling.{api, scaled_api, by_name, start}

abbrev pub budget : NamespaceBudget
budget = record {
  name = "payments-budget";
  namespace = "payments";
  finalizers = "cost.platform.io/cleanup" ∷ [];
  deletion_timestamp = pos 0;
  spec = record {
    monthly = record { cpu = "10"; memory = "10" };
    idle_threshold = record { cpu_percent = pos 5; window = "30m" };
    actions = record { on_warning = []; on_exceeded = []; on_hard_limit = [] };
    exclusions = by_name;
  };
  status = record {
    phase = "OK";
    current_usage = record { cpu = ""; memory = "" };
    accumulated = record { core_hours = "12"; gib_hours = "2"; since = "0" };
    last_reconcile = pos 0;
    budget_percent = pos 0;
    idle_workloads = [];
    last_report_ref = "";
    conditions = [];
  };
}

abbrev pub prometheus : Client
prometheus = record { base_url = "http://prometheus:9090" }

abbrev pub reconciler : Reconciler whole_numbers
reconciler = record {
  prometheus_client = prometheus;
  slack_webhook_url = "http://slack";
  cpu_price_per_core_hour = 2;
  mem_price_per_gib_hour = 1;
}

abbrev pub generator : Generator whole_numbers
generator = record {
  metrics_client = prometheus;
  cpu_price_per_core_hour = 2;
  mem_price_per_gib_hour = 1;
}

abbrev pub with_budget : World
with_budget = record (start []) { budget = some budget }

reconcile-spares_example :
    deployment_at memory
      (reconcile memory reconciler "payments" "payments-budget" with_budget).1
      "payments"
      "payments-api"
    ≡ some api
unfolding is_excluded
reconcile-spares_example =
    reconcile-spares memory memory-IsLawful reconciler "payments" "payments-budget" budget
      "payments" "payments-api" api with_budget refl refl refl refl

enforce-Holds_below_example :
    Keeps
      (Holds memory "payments" "payments-api" (some api))
      (enforce memory reconciler "payments" "OK" (determine_phase whole_numbers 85) (pos 85) budget)
enforce-Holds_below_example =
    enforce-Holds_below memory memory-IsLawful "payments" "payments-api" (some api) reconciler
      "payments" "OK" 85 (pos 85) budget refl refl

abbrev pub marked_world : World
marked_world = record (start []) { deployment = some scaled_api; budget = some budget }

-- The report of the month before, created without its status.
abbrev pub bare_report : CostReport
bare_report = record { name = "payments-1-1"; namespace = "payments"; status = empty_status }

-- The first day of the second month.
abbrev next_month : World
next_month = record (start []) { report = some bare_report; time = pos (30 * day_length) }

month_boundary-Lost_example :
    let after = month_boundary memory reconciler (pos (30 * day_length)) budget next_month in
    let name =
      report_name thirty_days "payments" (first_of_last_month thirty_days next_month.time) in
    (after.0
      ≡ ok (record budget {
        status = record budget.status {
          accumulated = record {
            core_hours = "0";
            gib_hours = "0";
            since = thirty_days.format_rfc3339 (pos (30 * day_length));
          };
        };
      }))
    × (stored : CostReport) × ((memory.cluster after.1).reports "payments" name ≡ some stored)
    × (stored.status ≡ empty_status)
unfolding report_name format_nat parse_int32
month_boundary-Lost_example =
    month_boundary-Lost memory memory-IsLawful reconciler (pos (30 * day_length)) budget next_month
      bare_report
      (record {
        since = record { instant = pos 0; offset = pos 0 };
        first_day = refl;
        started = λ e. cc e;
        parsed = refl;
        other = inl (λ e. cc e);
      })
      refl refl

month_boundary-Boundary_example :
    Boundary memory reconciler
      (pos (30 * day_length))
      budget
      next_month
      (month_boundary memory reconciler (pos (30 * day_length)) budget next_month).0
month_boundary-Boundary_example =
    month_boundary-Boundary memory reconciler (pos (30 * day_length)) budget next_month

-- The bare report counts as a report, and the totals are reset.
month_boundary_runs :
    (month_boundary memory reconciler (pos (30 * day_length)) budget next_month).0
    ≡ ok (reset_accumulated thirty_days (pos (30 * day_length)) budget)
unfolding month_boundary since_parsed maybe_generate_report generate generate_after report_name
    is_first_day other_month ◌>>=◌ parse_int32 reset_after format_nat
month_boundary_runs = refl

abbrev without_metrics : World
without_metrics = record with_budget { faults = false ∷ true ∷ [] }

reconcile-QueryFails_example :
    ((reconcile memory reconciler "payments" "payments-budget" without_metrics).0
      ≡ ok (record { requeue = false; requeue_after = pos 60000000000 }))
    × ((ns n : String)
        → deployment_at memory
            (reconcile memory reconciler "payments" "payments-budget" without_metrics).1
            ns
            n
          ≡ deployment_at memory without_metrics ns n)
unfolding query_instant do_request ◌>>=◌ month_boundary init_since is_first_day since_parsed
    other_month parse_int32
reconcile-QueryFails_example =
    reconcile-QueryFails memory memory-IsLawful reconciler "payments" "payments-budget" budget
      without_metrics refl refl (λ s. refl) (inl (_, refl))

handle_deletion-Unmarked_example :
    Unmarked (
      deployment_at memory (handle_deletion memory budget marked_world).1 "payments" "payments-api")
unfolding handle_deletion cleanup restore_each restore is_scaled_down_by_operator annotation marked
    annotate unmarked unannotate parse_int32 format_int ◌>>=◌ original_replicas
handle_deletion-Unmarked_example =
    handle_deletion-Unmarked memory memory-IsLawful budget marked_world "payments-api" scaled_api
      finished refl refl refl

update_status-Written_example :
    Written memory memory-IsLawful budget "Warning"
      (pos 85)
      (update_status memory budget "Warning" (pos 85) with_budget).1
unfolding update_status write_status runs ◌>>=◌ status_with set_condition carry_transition
    usage_warning budget_exceeded condition_status
update_status-Written_example =
    update_status-Written memory memory-IsLawful budget "Warning" (pos 85) with_budget
      (record budget { status = status_with "Warning" (pos 85) (pos 0) budget.status }) refl

abbrev suspend_on_warning : Actions
suspend_on_warning = record {
  on_warning = record { notify = ""; scale_down_idle = true; suspend_all = true } ∷ [];
  on_exceeded = [];
  on_hard_limit = [];
}

enforce-with_actions_example :
    enforce memory reconciler "payments" "OK" "Exceeded"
      (pos 105)
      (with_actions suspend_on_warning budget)
      with_budget
    ≡ enforce memory reconciler "payments" "OK" "Exceeded" (pos 105) budget with_budget
enforce-with_actions_example =
    enforce-with_actions memory reconciler suspend_on_warning "payments" "OK" "Exceeded" (pos 105)
      budget with_budget
