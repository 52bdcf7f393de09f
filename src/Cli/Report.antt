-- ===== src/Cli/Report.antt =====
-- cmd/kubectl-budget/report.go
pub mod Shown
use Prim.Native.String
use Prim.Native.Nat.{Ordering}
use namespace_cost_governor.Base.{
  String, ◌<>◌, Bool, true, false, List, [], ◌∷◌, ltb, length, if◌then◌else◌, Exec, of_result, pure,
  wrapping, ◌>>=◌, ◌>>◌,
}
use namespace_cost_governor.Go.Float.{Float64}
use namespace_cost_governor.Go.Strconv.{format_int}
use namespace_cost_governor.Go.Strings.{repeat}
use namespace_cost_governor.Api.{CostReport, CostReportStatus, TopConsumer, SuspensionEvent}
use namespace_cost_governor.Outside.{Outside}
use namespace_cost_governor.Cli.Console.{Console, build_client, say, table}
use namespace_cost_governor.Cli.Validation.{validate_namespace}

-- `a.Status.Period > b.Status.Period`
unfoldable pub later_period : CostReport → CostReport → Bool
later_period a b = elim (String.compare b.status.period a.status.period) [
  | Ordering.lt ↦ true
  | _ ↦ false
]

unfoldable pub title_text : String → CostReport → String
title_text namespace report =
    "Cost Report — " <> (namespace <> (" (" <> (report.status.period <> ")\n")))

unfoldable pub cpu_text : CostReport → String
cpu_text report = "Total CPU:    " <> (report.status.total_cost.core_hours <> " core-hours\n")

unfoldable pub memory_text : CostReport → String
memory_text report = "Total Memory: " <> (report.status.total_cost.gib_hours <> " GiB-hours\n")

unfoldable pub estimate_text : CostReport → String
estimate_text report = "Estimated:    " <> (report.status.total_cost.estimated_usd <> "\n")

unfoldable pub consumer_row : TopConsumer → String
unfolding format_int
consumer_row tc =
    "  "
    <> (tc.workload
        <> ("\t"
            <> (format_int tc.cpu_percent
                <> ("%\t"
                    <> (format_int tc.memory_percent <> ("%\t" <> (tc.estimated_usd <> "\n")))))))

unfoldable pub suspension_row : SuspensionEvent → String
suspension_row ev =
    "  " <> (ev.workload <> ("\t" <> (ev.scaled_down_at <> ("\t" <> (ev.reason <> "\n")))))

unfoldable pub no_reports_text : String → String
no_reports_text namespace = "No cost reports found for namespace " <> (namespace <> ".\n")

module _ {F : Float64} (O : Outside F) (S : Console O.World) where
  unfoldable pub print_header : String → CostReport → Exec O.World (Unit {0})
  unfolding title_text cpu_text memory_text estimate_text
  print_header namespace report = do
    say S (title_text namespace report)
    say S (repeat "─" 50 <> "\n")
    say S (cpu_text report)
    say S (memory_text report)
    say S (estimate_text report)
    say S "\n"

  unfoldable pub print_consumers : List TopConsumer → Exec O.World (Unit {0})
  print_consumers consumers =
      if ltb 0 (length consumers)
      then (do
        say S "Top consumers:\n"
        table S "writing report header: " "  WORKLOAD\tCPU%\tMEM%\tESTIMATED\n"
            "writing report consumer: " (λ tc. consumer_row tc) consumers
            "flushing report consumers: "
        say S "\n")
      else pure tt

  unfoldable pub print_suspensions : List SuspensionEvent → Exec O.World (Unit {0})
  print_suspensions events =
      if ltb 0 (length events)
      then (do
        say S "Suspension events:\n"
        table S "writing suspension header: " "  WORKLOAD\tSCALED DOWN AT\tREASON\n"
            "writing suspension event: " (λ ev. suspension_row ev) events
            "flushing suspension events: ")
      else pure tt

  unfoldable pub print_report : String → CostReport → Exec O.World (Unit {0})
  unfolding print_header
  print_report namespace report = do
    print_header namespace report
    print_consumers report.status.top_consumers
    print_suspensions report.status.suspended_events

  -- The first of the sorted list; a list that is not empty stays so when it is sorted.
  unfoldable pub print_first : String → List CostReport → Exec O.World (Unit {0})
  unfolding print_report
  print_first namespace [] = pure tt
  print_first namespace (report ∷ reports) = print_report namespace report

  unfoldable pub print_latest : String → List CostReport → Exec O.World (Unit {0})
  unfolding print_first
  print_latest namespace [] = say S (no_reports_text namespace)
  print_latest namespace (report ∷ reports) =
      print_first namespace (O.sort_slice CostReport later_period (report ∷ reports))

  unfoldable pub report_cmd : String → Exec O.World (Unit {0})
  unfolding print_latest
  report_cmd arg = do
    namespace ← of_result (validate_namespace O arg)
    wrapping "building client: " (build_client S)
    reports ← wrapping "listing cost reports: " (O.list_reports namespace)
    print_latest namespace reports
