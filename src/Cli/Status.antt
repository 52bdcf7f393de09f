-- ===== src/Cli/Status.antt =====
-- cmd/kubectl-budget/status.go
pub mod Shown
use namespace_cost_governor.Base.{
  String, ◌<>◌, List, [], ◌∷◌, ltb, length, if◌then◌else◌, Exec, pure, of_result, wrapping, ◌>>=◌,
  ◌>>◌,
}
use namespace_cost_governor.Go.Float.{Float64}
use namespace_cost_governor.Go.Strconv.{format_int}
use namespace_cost_governor.Go.Time.{Calendar}
use namespace_cost_governor.Api.{NamespaceBudget, IdleWorkloadStatus}
use namespace_cost_governor.Api.Kube.{
  Condition, ConditionStatus, condition_true, condition_false, condition_unknown,
}
use namespace_cost_governor.Outside.{Outside}
use namespace_cost_governor.Cli.Console.{Console, build_client, say, table}
use namespace_cost_governor.Cli.Validation.{validate_namespace}

abbrev pub status_head : String
status_head = "NAMESPACE\tPHASE\tBUDGET%\tCPU\t MEMORY\tLAST RECONCILE\n"

-- "%s\t%s\t%d%%\t%s cores\t%s GiB\t%s\n"
unfoldable pub summary_row : Calendar → String → NamespaceBudget → String
unfolding format_int
summary_row cal namespace budget =
    namespace
    <> ("\t"
        <> (budget.status.phase
            <> ("\t"
                <> (format_int budget.status.budget_percent
                    <> ("%\t"
                        <> (budget.status.current_usage.cpu
                            <> (" cores\t"
                                <> (budget.status.current_usage.memory
                                    <> (" GiB\t"
                                        <> (cal.format_seconds budget.status.last_reconcile
                                            <> "\n"))))))))))

unfoldable pub idle_row : Calendar → IdleWorkloadStatus → String
idle_row cal idle = "  " <> (idle.name <> ("\t" <> (cal.format_seconds idle.idle_since <> "\n")))

abbrev pub status_text : ConditionStatus → String
status_text condition_true = "True"
status_text condition_false = "False"
status_text condition_unknown = "Unknown"

unfoldable pub condition_row : Condition → String
condition_row c =
    "  " <> (c.kind <> ("\t" <> (status_text c.status <> ("\t" <> (c.message <> "\n")))))

module _ {F : Float64} (O : Outside F) (S : Console O.World) where
  -- The table of one row.
  unfoldable pub print_summary : String → NamespaceBudget → Exec O.World (Unit {0})
  print_summary namespace budget =
      table S "writing status header: " status_head "writing status: "
        (λ b. summary_row O.calendar namespace b) (budget ∷ []) "flushing status: "

  unfoldable pub print_idle : List IdleWorkloadStatus → Exec O.World (Unit {0})
  print_idle idle_workloads =
      if ltb 0 (length idle_workloads)
      then (do
        say S "\nIdle workloads:\n"
        table S "writing idle header: " "  NAME\tIDLE SINCE\n" "writing idle workload: "
            (λ i. idle_row O.calendar i) idle_workloads "flushing idle workloads: ")
      else pure tt

  unfoldable pub print_conditions : List Condition → Exec O.World (Unit {0})
  print_conditions conditions =
      if ltb 0 (length conditions)
      then (do
        say S "\nConditions:\n"
        table S "writing conditions header: " "  TYPE\tSTATUS\tMESSAGE\n" "writing condition: "
            (λ c. condition_row c) conditions "flushing conditions: ")
      else pure tt

  -- What the command prints of the budget that it fetched.
  unfoldable pub print_status : String → NamespaceBudget → Exec O.World (Unit {0})
  unfolding print_summary
  print_status namespace budget = do
    print_summary namespace budget
    print_idle budget.status.idle_workloads
    print_conditions budget.status.conditions

  -- The budget must be called `budget`.
  unfoldable pub fetch_status : String → Exec O.World NamespaceBudget
  fetch_status namespace =
      wrapping ("fetching budget for namespace " <> (namespace <> ": "))
        (O.get_budget namespace "budget")

  unfoldable pub status_cmd : String → Exec O.World (Unit {0})
  unfolding fetch_status
  status_cmd arg = do
    namespace ← of_result (validate_namespace O arg)
    wrapping "building client: " (build_client S)
    budget ← fetch_status namespace
    print_status namespace budget
