-- ===== src/Cli/Report/Shown.antt =====
-- What `kubectl budget report` shows.
use Prim.Native.String
use Prim.Native.Nat.{Ordering}
use namespace_cost_governor.Base.{String, ◌<>◌, List, [], ◌∷◌, ◌++◌, map, ◌≡◌, ◌≢◌}
use namespace_cost_governor.Go.Strings.{repeat}
use namespace_cost_governor.Api.{CostReport, TopConsumer, SuspensionEvent}
use namespace_cost_governor.Outside.{Outside}
use namespace_cost_governor.Outside.Laws.{In}
use namespace_cost_governor.Cli.Console.{Console}
use namespace_cost_governor.Cli.Report.{
  title_text, cpu_text, memory_text, estimate_text, consumer_row, suspension_row, no_reports_text,
}

abbrev pub header_texts : String → CostReport → List String
header_texts namespace r =
    title_text namespace r
    ∷ (repeat "─" 50 <> "\n")
    ∷ cpu_text r
    ∷ memory_text r
    ∷ estimate_text r
    ∷ "\n"
    ∷ []

abbrev pub consumers_texts : List TopConsumer → List String
consumers_texts [] = []
consumers_texts (x ∷ xs) =
    "Top consumers:\n"
    ∷ (("  WORKLOAD\tCPU%\tMEM%\tESTIMATED\n" ∷ map (λ tc. consumer_row tc) (x ∷ xs))
        ++ ("\n" ∷ []))

abbrev pub suspensions_texts : List SuspensionEvent → List String
suspensions_texts [] = []
suspensions_texts (x ∷ xs) =
    "Suspension events:\n"
    ∷ "  WORKLOAD\tSCALED DOWN AT\tREASON\n"
    ∷ map (λ ev. suspension_row ev) (x ∷ xs)

-- A report as it is shown.
pub report_texts : String → CostReport → List String
report_texts namespace r =
    header_texts namespace r
    ++ (consumers_texts r.status.top_consumers ++ suspensions_texts r.status.suspended_events)

-- `r` is one of the reports, and its period is before that of none of them.
pub record IsLatest (r : CostReport) (reports : List CostReport) : Type 0 where
  pub listed : In r reports
  pub latest :
      (s : CostReport) → In s reports → String.compare r.status.period s.status.period ≢ Ordering.lt

-- What is shown for a list of reports.
pub data Shows (namespace : String) (reports : List CostReport) (texts : List String) : Type 0 where
  nothing : reports ≡ [] → texts ≡ no_reports_text namespace ∷ [] → Shows namespace reports texts
  newest :
      (r : CostReport)
      → IsLatest r reports
      → texts ≡ report_texts namespace r
      → Shows namespace reports texts
