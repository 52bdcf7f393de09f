-- ===== src/Examples/Scaling.antt =====
-- The theorems on scale-down, restore and suspension at a Deployment of three replicas.
use namespace_cost_governor.Base.{
  Bool, true, false, none, some, List, [], ◌∷◌, ◌≡◌, refl, ok, arith,
}
use namespace_cost_governor.Base.Int.{pos}
use namespace_cost_governor.Base.Keeps.{Keeps}
use namespace_cost_governor.Go.Strconv.{format_int, parse_int32}
use namespace_cost_governor.Api.{Exclusion}
use namespace_cost_governor.Api.Kube.{Deployment, annotation, annotate, unannotate}
use namespace_cost_governor.Outside.Frame.{Holds}
use namespace_cost_governor.Outside.Laws.{deployment_at}
use namespace_cost_governor.Outside.Patch.{Same-refl}
use namespace_cost_governor.Idle.{IdleWorkload}
use namespace_cost_governor.Actions.ScaleDown.{
  marked, unmarked, scale_down, restore, is_scaled_down_by_operator, at_zero, original_replicas,
  with_replicas,
}
use namespace_cost_governor.Actions.ScaleDown.Stages.{Stage, scale_down-Stage}
use namespace_cost_governor.Actions.ScaleDown.Skips.{scale_down-Holds_recorded}
use namespace_cost_governor.Actions.ScaleDown.Retry.{IsRestored, restore-twice}
use namespace_cost_governor.Idle.Exclusion.{is_excluded}
use namespace_cost_governor.Actions.ScaleDown.Restoring.{RestoreStage, restore-RestoreStage}
use namespace_cost_governor.Actions.ScaleDown.RoundTrip.{BackTo, restore-scale_down}
use namespace_cost_governor.Actions.Suspend.{skipped, suspend_all}
use namespace_cost_governor.Actions.Suspend.Names.{names_to_suspend, suspend_all-names}
use namespace_cost_governor.Actions.Suspend.Spared.{suspend_all-Holds_spared}
use namespace_cost_governor.Examples.Memory.{World, memory}
use namespace_cost_governor.Examples.Memory.Lawful.{memory-IsLawful}

abbrev pub api : Deployment
api = record {
  name = "payments-api";
  namespace = "payments";
  labels = [];
  annotations = some (("team", "pay") ∷ []);
  replicas = some (pos 3);
}

abbrev pub api_workload : IdleWorkload
api_workload = record { name = "payments-api"; namespace = "payments"; idle_since = pos 0 }

abbrev pub start : List Bool → World
start faults = record {
  deployment = some api;
  budget = none;
  report = none;
  time = pos 0;
  faults = faults;
  output = [];
}

-- The second patch fails: the annotations are there, and the replicas are as before.
abbrev second_patch_fails : List Bool
second_patch_fails = false ∷ false ∷ true ∷ []

scale_down_runs :
    ((scale_down memory api_workload (start [])).0 ≡ ok tt)
    × (deployment_at memory (scale_down memory api_workload (start [])).1 "payments" "payments-api"
        ≡ some (with_replicas (pos 0) (marked "0" api)))
unfolding scale_down is_scaled_down_by_operator at_zero annotation format_int marked annotate
scale_down_runs = (refl, refl)

scale_down-Stage_example : Stage api (scale_down memory api_workload (start second_patch_fails)).0 (
    deployment_at memory
      (scale_down memory api_workload (start second_patch_fails)).1
      "payments"
      "payments-api")
unfolding is_scaled_down_by_operator at_zero annotation
scale_down-Stage_example =
    scale_down-Stage memory memory-IsLawful (start second_patch_fails) api_workload api refl refl
      refl

scale_down-Holds_recorded_example :
    Keeps
      (Holds memory "payments" "payments-api" (some (marked "0" api)))
      (scale_down memory api_workload)
scale_down-Holds_recorded_example =
    scale_down-Holds_recorded memory memory-IsLawful api_workload "0" api (marked "0" api)
      (Same-refl (marked "0" api))

restore-scale_down_example : BackTo api (
    deployment_at memory
      (restore memory "payments" "payments-api" (scale_down memory api_workload (start [])).1).1
      "payments"
      "payments-api")
unfolding scale_down is_scaled_down_by_operator at_zero annotation format_int marked annotate
    restore parse_int32 unmarked unannotate original_replicas
restore-scale_down_example =
    restore-scale_down memory memory-IsLawful (start []) api_workload api refl refl refl
      (omega arith) (omega arith) refl refl

abbrev pub scaled_api : Deployment
scaled_api = with_replicas (pos 0) (marked "0" api)

abbrev pub scaled : List Bool → World
scaled faults = record (start faults) { deployment = some scaled_api }

restore-RestoreStage_example :
    RestoreStage scaled_api
      (pos 3)
      (restore memory "payments" "payments-api" (scaled second_patch_fails)).0
      (deployment_at memory
        (restore memory "payments" "payments-api" (scaled second_patch_fails)).1
        "payments"
        "payments-api")
unfolding is_scaled_down_by_operator at_zero annotation format_int marked annotate parse_int32
    original_replicas
restore-RestoreStage_example =
    restore-RestoreStage memory memory-IsLawful "payments" "payments-api"
      (scaled second_patch_fails) scaled_api "3" (pos 3) refl refl refl refl

abbrev pub by_name : List Exclusion
by_name = record { name = "payments-api"; label_selector = none } ∷ []

suspend_all-Holds_spared_example :
    Keeps
      (Holds memory "payments" "payments-api" (some api))
      (suspend_all memory by_name "payments")
unfolding skipped is_excluded
suspend_all-Holds_spared_example =
    suspend_all-Holds_spared memory memory-IsLawful by_name "payments" "payments-api" api refl
      "payments"

-- The first patch fails, and the name is listed.
abbrev first_patch_fails : List Bool
first_patch_fails = false ∷ false ∷ true ∷ []

suspend_all-names_example :
    (suspend_all memory [] "payments" (start first_patch_fails)).0
    ≡ ok (names_to_suspend memory [] (api ∷ []))
suspend_all-names_example =
    suspend_all-names memory [] "payments" (api ∷ []) (start first_patch_fails) refl

restore-twice_example : IsRestored scaled_api (pos 3) (
    deployment_at memory
      (restore memory "payments" "payments-api"
        (restore memory "payments" "payments-api" (scaled second_patch_fails)).1).1
      "payments"
      "payments-api")
unfolding is_scaled_down_by_operator annotation format_int marked annotate parse_int32
    original_replicas restore unmarked unannotate
restore-twice_example =
    restore-twice memory memory-IsLawful "payments" "payments-api" (scaled second_patch_fails)
      scaled_api "3" (pos 3) refl refl refl refl refl
