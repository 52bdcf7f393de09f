-- ===== src/Metrics/Usage.antt =====
-- internal/metrics/usage.go: sums and averages over samples.
use namespace_cost_governor.Base.{◌*◌, List, [], ◌∷◌, length, nat_beq, if◌then◌else◌}
use namespace_cost_governor.Base.Int.{pos}
use namespace_cost_governor.Go.Float.{Float64}
use namespace_cost_governor.Metrics.{Sample}

module _ {F : Float64} where
  -- `for _, s := range samples { total += s.Value }`
  total_from : F.Carrier → List (Sample F) → F.Carrier
  total_from total [] = total
  total_from total (s ∷ samples) = total_from (F.add total s.value) samples

  unfoldable pub sum_values : List (Sample F) → F.Carrier
  unfolding total_from
  sum_values samples = total_from (F.of_int (pos 0)) samples

  mean : List (Sample F) → F.Carrier
  unfolding sum_values
  mean samples = F.div (sum_values samples) (F.of_int (pos (length samples)))

  unfoldable pub compute_core_hours : List (Sample F) → F.Carrier → F.Carrier
  unfolding mean
  compute_core_hours samples elapsed_hours =
      if nat_beq (length samples) 0 then F.of_int (pos 0) else F.mul (mean samples) elapsed_hours

  unfoldable pub compute_gib_hours : List (Sample F) → F.Carrier → F.Carrier
  unfolding mean
  compute_gib_hours samples elapsed_hours =
      if nat_beq (length samples) 0
      then F.of_int (pos 0)
      else F.mul (F.div (mean samples) (F.of_int (pos (1024 * 1024 * 1024)))) elapsed_hours

  unfoldable pub average_cpu_percent : List (Sample F) → F.Carrier
  unfolding mean
  average_cpu_percent samples =
      if nat_beq (length samples) 0
      then F.of_int (pos 0)
      else F.mul (mean samples) (F.of_int (pos 100))
