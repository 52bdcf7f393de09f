-- ===== src/Examples/Starting.antt =====
-- The theorems on the operator's `main`, with a runtime that keeps what it is given.
use namespace_cost_governor.Base.{String, List, ◌∷◌, ok, All, refl}
use namespace_cost_governor.Base.Keeps.{Keeps}
use namespace_cost_governor.Controller.{Reconciler}
use namespace_cost_governor.Operator.{Runtime, ManagerOptions, main, default_flags}
use namespace_cost_governor.Operator.Safe.{
  Calls, Silent, NoHttp2, Guarded, main-Silent, main-NoHttp2,
}
use namespace_cost_governor.Examples.Memory.{memory, whole_numbers}

pub record Started : Type 0 where
  pub managers : List ManagerOptions
  pub reconcilers : List (Reconciler whole_numbers)

abbrev runtime : Runtime whole_numbers Started
runtime = record {
  Manager = Unit;
  new_manager = λ o w. (ok tt, record w { managers = o ∷ w.managers });
  add_budget_controller = λ r mgr w. (ok tt, record w { reconcilers = r ∷ w.reconcilers });
  add_report_controller = λ mgr w. (ok tt, w);
  add_healthz_check = λ mgr w. (ok tt, w);
  add_readyz_check = λ mgr w. (ok tt, w);
  start = λ mgr w. (ok tt, w);
}

-- Prices in whole numbers.
abbrev prices : String → String
prices key = "2"

abbrev SilentReconcilers : Started → Type 0
SilentReconcilers w = All (Silent memory) w.reconcilers

abbrev SafeManagers : Started → Type 0
SafeManagers w = All (λ o. NoHttp2 o × Guarded o) w.managers

runtime-Calls-Silent : Calls runtime SilentReconcilers (λ _. Unit) (Silent memory)
runtime-Calls-Silent = record {
  new_manager = λ o u. record { at = λ w h. h };
  add_budget_controller = λ r mgr silent. record { at = λ w h. (silent, h) };
  add_report_controller = λ mgr. record { at = λ w h. h };
  add_healthz_check = λ mgr. record { at = λ w h. h };
  add_readyz_check = λ mgr. record { at = λ w h. h };
  start = λ mgr. record { at = λ w h. h };
}

runtime-Calls-NoHttp2 : Calls runtime SafeManagers (λ o. NoHttp2 o × Guarded o) (λ _. Unit)
runtime-Calls-NoHttp2 = record {
  new_manager = λ o safe. record { at = λ w h. (safe, h) };
  add_budget_controller = λ r mgr u. record { at = λ w h. h };
  add_report_controller = λ mgr. record { at = λ w h. h };
  add_healthz_check = λ mgr. record { at = λ w h. h };
  add_readyz_check = λ mgr. record { at = λ w h. h };
  start = λ mgr. record { at = λ w h. h };
}

main-Silent_example : Keeps SilentReconcilers (main runtime prices default_flags)
main-Silent_example =
    main-Silent memory runtime SilentReconcilers prices default_flags runtime-Calls-Silent

main-NoHttp2_example : Keeps SafeManagers (main runtime prices default_flags)
main-NoHttp2_example =
    main-NoHttp2 memory runtime SafeManagers prices default_flags refl runtime-Calls-NoHttp2

-- The default price is no whole number.
