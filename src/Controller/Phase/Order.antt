-- ===== src/Controller/Phase/Order.antt =====
-- The phase by the number of thresholds that the use of the budget reaches.
use namespace_cost_governor.Base.{
  ℕ, zero, suc, ◌+◌, String, Bool, true, false, ◌≡◌, refl, if◌then◌else◌,
}
use namespace_cost_governor.Base.Int.{pos}
use namespace_cost_governor.Go.Float.{Float64}
use namespace_cost_governor.Controller.Phase.{determine_phase}

-- The phases in order of severity.
pub phase_of : ℕ → String
phase_of zero = "OK"
phase_of (suc zero) = "Warning"
phase_of (suc (suc zero)) = "Exceeded"
phase_of (suc (suc (suc n))) = "Suspended"

abbrev pub count : Bool → ℕ
count b = if b then 1 else 0

-- Three tests of which each implies the one before.
choose :
    (warning exceeded suspended : Bool)
    → (exceeded ≡ true → warning ≡ true)
    → (suspended ≡ true → exceeded ≡ true)
    → (if suspended
        then "Suspended"
        else if exceeded
        then "Exceeded"
        else if warning
        then "Warning"
        else "OK")
      ≡ phase_of (count warning + count exceeded + count suspended)
unfolding phase_of
choose true true true w e = refl
choose true true false w e = refl
choose true false false w e = refl
choose false false false w e = refl
choose w false true hw e = cc (e refl)
choose false true s w e = cc (w refl)

-- The number of the thresholds 80, 100 and 120 that a share of the budget reaches decides its phase:
-- none is OK, one Warning, two Exceeded, three Suspended. This asks that <= on floats is transitive
-- and orders the thresholds.
pub determine_phase-count :
    (F : Float64)
    → ((a b c : F.Carrier) → F.leb a b ≡ true → F.leb b c ≡ true → F.leb a c ≡ true)
    → F.leb (F.of_int (pos 80)) (F.of_int (pos 100)) ≡ true
    → F.leb (F.of_int (pos 100)) (F.of_int (pos 120)) ≡ true
    → (p : F.Carrier)
    → determine_phase F p
      ≡ phase_of (
          count (F.leb (F.of_int (pos 80)) p)
          + count (F.leb (F.of_int (pos 100)) p)
          + count (F.leb (F.of_int (pos 120)) p))
unfolding determine_phase
determine_phase-count F trans low high p =
    choose _ _ _ (λ e. trans (F.of_int (pos 80)) (F.of_int (pos 100)) p low e)
      (λ s. trans (F.of_int (pos 100)) (F.of_int (pos 120)) p high s)
