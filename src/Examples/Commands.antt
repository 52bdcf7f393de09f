-- ===== src/Examples/Commands.antt =====
-- The theorems on what the commands show, on the report's consumers and on idle detection.
use namespace_cost_governor.Base.{
  true, false, inl, inr, Bool-cases, Option-cases, ◌==◌, ◌&&◌, String, some, List, [], ◌∷◌, ◌≡◌,
  ◌++◌, refl, ok, ◌>>=◌,
}
use namespace_cost_governor.Base.Dict
use namespace_cost_governor.Api.{NamespaceBudget}
use namespace_cost_governor.Metrics.Prometheus.{Client}
use namespace_cost_governor.Idle.Detector.Decided.{Decided}
use namespace_cost_governor.Outside.Ranging.{Ranges}
use namespace_cost_governor.Outside.Sorting.{Sorts}
use namespace_cost_governor.Report.{WorkloadUsage}
use namespace_cost_governor.Report.Consumers.{build_top_consumers, uses_more}
use namespace_cost_governor.Report.Consumers.Top.{TopFive, build_top_consumers-TopFive}
use namespace_cost_governor.Cli.Console.{build_client, load_config, write_rows, table}
use namespace_cost_governor.Cli.Validation.{validate_namespace, trim_space}
use namespace_cost_governor.Actions.ScaleDown.{marked}
use namespace_cost_governor.Api.Kube.{Deployment}
use namespace_cost_governor.Cli.Restore.{restore_cmd}
use namespace_cost_governor.Cli.Restore.Shown.{restore_cmd-Shows, Shows, IsQuiet}
use namespace_cost_governor.Examples.Scaling.{scaled, scaled_api}
use namespace_cost_governor.Cli.Status.{
  status_cmd, fetch_status, print_status, print_summary, print_idle, print_conditions,
}
use namespace_cost_governor.Cli.Status.Shown.{status_cmd-shows, status_texts}
use namespace_cost_governor.Cli.Report.Shown.{Shows as ReportShows}
use namespace_cost_governor.Examples.Memory.{
  World, memory, whole_numbers, patch, deployment_of, fails,
}
use namespace_cost_governor.Examples.Memory.Terminal.{terminal, terminal-IsTerminal, output-call}
use namespace_cost_governor.Examples.Reconciling.{budget, generator, with_budget, bare_report}

-- The budget that the command reads, in its namespace.
abbrev status_world : World
status_world = record with_budget { budget = some (record budget { name = "budget" }) }

status_cmd-shows_example :
    (namespace : String) × (b : NamespaceBudget) × (validate_namespace memory "payments"
      ≡ ok namespace)
    × ((memory.get_budget namespace "budget" (build_client terminal status_world).1).0 ≡ ok b)
    × ((status_cmd memory terminal "payments" status_world).1.output
        ≡ [] ++ status_texts memory.calendar namespace b)
unfolding validate_namespace trim_space status_cmd fetch_status print_status print_summary
    print_idle print_conditions build_client load_config write_rows table ◌>>=◌
status_cmd-shows_example =
    status_cmd-shows memory terminal-IsTerminal "payments" status_world
      (λ namespace v. output-call v _) refl

abbrev report_world : World
report_world = record with_budget { report = some bare_report }

abbrev usage : String → WorkloadUsage whole_numbers
usage name = record { name = name; core_hours = 4; gib_hours = 2; cpu_percent = 0; mem_percent = 0 }

abbrev workloads : List (WorkloadUsage whole_numbers)
workloads = record (usage "api") { core_hours = 9 } ∷ usage "ledger" ∷ []

workloads-Sorts : Sorts memory (uses_more {F = whole_numbers}) workloads
workloads-Sorts = record {
  sorted = ((refl, tt), (tt, tt));
  length_kept = refl;
  comes_from = λ a there. there;
  gets_in = λ a there. there;
}

build_top_consumers-TopFive_example :
    TopFive generator 13 4 workloads (build_top_consumers memory generator workloads 13 4)
build_top_consumers-TopFive_example =
    build_top_consumers-TopFive memory generator workloads 13 4 workloads-Sorts

-- A range over a map in memory goes in the order of its entries.
pub memory-Ranges : Ranges memory
memory-Ranges = record {
  range-Distinct = λ V m distinct. distinct;
  lookup-range = λ V m k distinct. refl;
}

abbrev prometheus : Client
prometheus = record { base_url = "http://prometheus" }

output-patch :
    (base modified : Deployment) (w : World) → (patch base modified w).1.output ≡ w.output
output-patch base modified w =
    elim (Bool-cases (modified.namespace == base.namespace && modified.name == base.name)) [
      | inr renamed ↦ rw renamed refl
      | inl same ↦ elim (Option-cases (deployment_of w.deployment base.namespace base.name)) [
        | inl nothing ↦ rw (same, nothing) refl
        | inr (d, stored) ↦ elim (Bool-cases (fails w.faults)) [
          | inl fault ↦ rw (same, stored, fault) refl
          | inr fine ↦ rw (same, stored, fine) refl
        ]
      ]
    ]

memory-IsQuiet : IsQuiet memory terminal-IsTerminal
memory-IsQuiet = record {
  patch = λ base modified w. output-patch base modified w;
  list = λ ns w. output-call w _;
}

-- The patch of the one marked Deployment fails.
restore_cmd-Shows_example :
    ((restore_cmd memory terminal "payments" (scaled (false ∷ true ∷ []))).0 ≡ ok tt)
    × Shows memory terminal-IsTerminal memory-IsQuiet
        (scaled_api ∷ [])
        []
        (memory.list_deployments "payments"
          (build_client terminal (scaled (false ∷ true ∷ []))).1).1
        (restore_cmd memory terminal "payments" (scaled (false ∷ true ∷ []))).1
unfolding validate_namespace trim_space build_client load_config ◌>>=◌ marked
restore_cmd-Shows_example =
    restore_cmd-Shows memory terminal-IsTerminal memory-IsQuiet "payments" "payments"
      (scaled (false ∷ true ∷ [])) (scaled_api ∷ []) refl refl refl
