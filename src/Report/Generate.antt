-- ===== src/Report/Generate.antt =====
-- `Generate` and `reportName` of internal/report/generator.go.
pub mod Frame
pub mod Existing
use namespace_cost_governor.Base.{
  ℕ, ◌-◌, String, ◌<>◌, Bool, true, false, Option, List, [], ◌∷◌, if◌then◌else◌, Result, ok, err,
  Exec, pure, throw, wrap, wrapping, attempt, ◌>>=◌, ◌>>◌,
}
use namespace_cost_governor.Base.Int.{pos, ◌-ℤ◌}
use namespace_cost_governor.Go.Float.{Float64}
use namespace_cost_governor.Go.Time.{Time, Calendar, second}
use namespace_cost_governor.Api.{
  NamespaceBudget, CostReport, CostReportStatus, TopConsumer, SuspensionEvent,
}
use namespace_cost_governor.Outside.{Outside, clock, is_not_found}
use namespace_cost_governor.Report.{Generator, WorkloadUsage, estimate_usd}
use namespace_cost_governor.Report.Usage.{query_workload_usage}
use namespace_cost_governor.Report.Consumers.{build_top_consumers}
use namespace_cost_governor.Report.Events.{collect_suspension_events}

unfoldable pub report_name : Calendar → String → Time → String
report_name cal namespace t = namespace <> ("-" <> cal.format_month t)

abbrev pub empty_status : CostReportStatus
empty_status = record {
  period = "";
  namespace = "";
  total_cost = record { core_hours = ""; gib_hours = ""; estimated_usd = "" };
  top_consumers = [];
  idle_events = [];
  suspended_events = [];
  conditions = [];
}

-- The first instant of the month before that of `now`.
abbrev pub first_of_last_month : Calendar → Time → Time
first_of_last_month cal now = cal.first_of_month (cal.year now) (cal.month now - 1)

module _ {F : Float64} (O : Outside F) (g : Generator F) where
  -- `strconv.ParseFloat`, with 0 on an error.
  parsed_or_zero : String → F.Carrier
  parsed_or_zero s = let (value, valid) = F.parse s in if valid then value else F.of_int (pos 0)

  events_or_none : Result (List SuspensionEvent) → List SuspensionEvent
  events_or_none (ok events) = events
  events_or_none (err e) = []

  unfoldable pub report_status :
      NamespaceBudget → String → List (WorkloadUsage F) → List SuspensionEvent → CostReportStatus
  unfolding parsed_or_zero
  report_status budget period workloads events =
      let total_core_hours = parsed_or_zero budget.status.accumulated.core_hours in
      let total_gib_hours = parsed_or_zero budget.status.accumulated.gib_hours in
      record empty_status {
        period = period;
        namespace = budget.namespace;
        total_cost = record {
          core_hours = F.format 2 total_core_hours;
          gib_hours = F.format 2 total_gib_hours;
          estimated_usd = "$" <> F.format 2 (estimate_usd g total_core_hours total_gib_hours);
        };
        top_consumers = build_top_consumers O g workloads total_core_hours total_gib_hours;
        suspended_events = events;
      }

  -- What follows the check for an existing report: the object first, then its status.
  unfoldable pub write_report : NamespaceBudget → Time → String → Exec O.World Unit
  unfolding events_or_none
  write_report budget first report_ref = do
    let last = O.calendar.add_month first -ℤ second
    workloads ←
        wrapping "querying workload usage: " (query_workload_usage O g budget.namespace first last)
    events ← attempt (collect_suspension_events O budget.namespace)
    report ← wrapping "creating cost report: " (
        O.create_report
          (record { name = report_ref; namespace = budget.namespace; status = empty_status }))
    wrapping "updating cost report status: " (
        O.update_report_status (record report {
          status =
              report_status budget (O.calendar.format_month first) workloads
                (events_or_none events);
        }))

  -- What follows the look for an existing report.
  unfoldable pub generate_after : NamespaceBudget → Time → Result CostReport → Exec O.World Unit
  unfolding write_report
  generate_after budget first (ok report) = pure tt
  generate_after budget first (err e) =
      if is_not_found e
      then write_report budget first (report_name O.calendar budget.namespace first)
      else throw (wrap "checking existing report: " e)

  unfoldable pub generate : NamespaceBudget → Exec O.World Unit
  unfolding generate_after
  generate budget = do
    now ← clock O
    let first = first_of_last_month O.calendar now
    existing ←
        attempt (O.get_report budget.namespace (report_name O.calendar budget.namespace first))
    generate_after budget first existing
