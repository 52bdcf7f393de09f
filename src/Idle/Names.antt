-- ===== src/Idle/Names.antt =====
-- `PodToDeployment` and `promDuration` of internal/idle/detector.go.
pub mod Suffix
use Prim.Native.Char.{Char, code}
use namespace_cost_governor.Base.{◌-◌, String, ◌<>◌, length, take, leb, if◌then◌else◌}
use namespace_cost_governor.Base.Int.{pos}
use namespace_cost_governor.Go.Float.{Float64}
use namespace_cost_governor.Go.Strings.{split, join}
use namespace_cost_governor.Go.Time.{Duration, hours, minutes}

unfoldable pub pod_to_deployment : String → String
pod_to_deployment pod_name =
    let parts = split pod_name b'-' in
    if leb (length parts) 2 then pod_name else join (take (length parts - 2) parts) "-"

unfoldable pub prom_duration : (F : Float64) → Duration → String
prom_duration F d =
    if F.leb (F.of_int (pos 1)) (hours F d)
    then F.format 0 (hours F d) <> "h"
    else F.format 0 (minutes F d) <> "m"
