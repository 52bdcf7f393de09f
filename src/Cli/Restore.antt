-- ===== src/Cli/Restore.antt =====
-- cmd/kubectl-budget/restore.go: one patch for each Deployment that the operator scaled down.
pub mod Spared
pub mod Shown
pub mod Life
pub mod Race
use namespace_cost_governor.Base.{
  ℕ, ◌+◌, String, ◌<>◌, Bool, none, some, List, [], ◌∷◌, nat_beq, if◌then◌else◌, Result, ok, err,
  Error, Exec, of_result, pure, wrapping, attempt, ◌>>=◌, ◌>>◌,
}
use namespace_cost_governor.Base.Int.{ℤ, pos}
use namespace_cost_governor.Go.Float.{Float64}
use namespace_cost_governor.Go.Strconv.{parse_int32, format_int}
use namespace_cost_governor.Api.Kube.{Deployment, annotation}
use namespace_cost_governor.Outside.{Outside}
use namespace_cost_governor.Actions.ScaleDown.{
  annotation_original_replicas, is_scaled_down_by_operator, with_replicas, unmarked,
}
use namespace_cost_governor.Cli.Console.{Console, build_client, say}
use namespace_cost_governor.Cli.Validation.{validate_namespace}

-- A line that the command prints of a Deployment.
pub data Line : Type 0 where
  missing_annotation invalid_annotation : String → Line
  failed_to_restore : String → Error → Line
  restored : String → ℤ → Line

-- Its text; `show` is the text of an error.
unfoldable pub line_text : (Error → String) → Line → String
unfolding format_int
line_text show (missing_annotation name) =
    "  skipping " <> (name <> ": missing original-replicas annotation\n")
line_text show (invalid_annotation name) =
    "  skipping " <> (name <> ": invalid original-replicas annotation\n")
line_text show (failed_to_restore name e) =
    "  failed to restore " <> (name <> (": " <> (show e <> "\n")))
line_text show (restored name n) =
    "  restored " <> (name <> (" → " <> (format_int n <> " replicas\n")))

unfoldable pub summary_text : ℕ → String
summary_text n =
    if nat_beq n 0
    then "No workloads to restore.\n"
    else "\nRestored " <> (format_int (pos n) <> " workload(s).\n")

-- The line on one patch.
unfoldable pub line_of : Deployment → ℤ → Result Deployment → Line
line_of d replicas (ok answer) = restored d.name replicas
line_of d replicas (err e) = failed_to_restore d.name e

-- `restored++` after a patch that succeeded
unfoldable pub counted : Result Deployment → ℕ → ℕ
counted (ok answer) n = n + 1
counted (err e) n = n

module _ {F : Float64} (O : Outside F) (S : Console O.World) where
  abbrev say_line : Line → Exec O.World (Unit {0})
  say_line l = say S (line_text (λ e. S.error_text e) l)

  -- The patch, and its result.
  patch_restored : Deployment → ℤ → Exec O.World (Result Deployment)
  patch_restored d replicas = attempt (O.patch_deployment d (unmarked (with_replicas replicas d)))

  -- `rest` is the rest of the loop.
  restore_one : Deployment → ℤ → Exec O.World ℕ → Exec O.World ℕ
  unfolding ◌>>=◌ patch_restored line_of counted line_text
  restore_one d replicas rest = do
    patched ← patch_restored d replicas
    say_line (line_of d replicas patched)
    n ← rest
    pure (counted patched n)

  skip : Line → Exec O.World ℕ → Exec O.World ℕ
  unfolding ◌>>=◌ line_text
  skip l rest = do say_line l; rest

  -- The number of the restored workloads.
  unfoldable pub restore_loop : List Deployment → Exec O.World ℕ
  unfolding restore_one skip
  restore_loop [] = pure 0
  restore_loop (d ∷ deployments) =
      let rest = restore_loop deployments in
      if is_scaled_down_by_operator d
      then elim (annotation annotation_original_replicas d) [
        | none ↦ skip (missing_annotation d.name) rest
        | some original_str ↦ elim (parse_int32 original_str) [
          | none ↦ skip (invalid_annotation d.name) rest
          | some original ↦ restore_one d original rest
        ]
      ]
      else rest

  -- What the command does in a namespace once it has a client.
  restore_listed : String → Exec O.World (Unit {0})
  unfolding ◌>>=◌ restore_loop summary_text
  restore_listed namespace = do
    deployments ← wrapping "listing deployments: " (O.list_deployments namespace)
    n ← restore_loop deployments
    say S (summary_text n)

  unfoldable pub restore_cmd : String → Exec O.World (Unit {0})
  unfolding restore_listed
  restore_cmd arg = do
    namespace ← of_result (validate_namespace O arg)
    wrapping "building client: " (build_client S)
    restore_listed namespace
