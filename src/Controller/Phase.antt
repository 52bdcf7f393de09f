-- ===== src/Controller/Phase.antt =====
-- `determinePhase`, and the test on the phase that guards detection and scale-down.
pub mod Order
use namespace_cost_governor.Base.{String, Bool, ◌==◌, ◌||◌, if◌then◌else◌}
use namespace_cost_governor.Base.Int.{pos}
use namespace_cost_governor.Go.Float.{Float64}
use namespace_cost_governor.Controller.{phase_exceeded, phase_suspended}

unfoldable pub determine_phase : (F : Float64) → F.Carrier → String
determine_phase F percent =
    if F.leb (F.of_int (pos 120)) percent
    then "Suspended"
    else if F.leb (F.of_int (pos 100)) percent
    then "Exceeded"
    else if F.leb (F.of_int (pos 80)) percent
    then "Warning"
    else "OK"

unfoldable pub under_pressure : String → Bool
under_pressure phase = phase == phase_exceeded || phase == phase_suspended
