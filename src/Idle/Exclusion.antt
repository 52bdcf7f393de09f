-- ===== src/Idle/Exclusion.antt =====
-- `IsExcluded` and `IsLabelExcluded` of internal/idle/detector.go.
use namespace_cost_governor.Base.{
  String, Bool, true, false, none, some, List, [], ◌∷◌, ◌==◌, not, ◌&&◌, if◌then◌else◌,
}
use namespace_cost_governor.Go.Float.{Float64}
use namespace_cost_governor.Api.{Exclusion}
use namespace_cost_governor.Api.Kube.{Deployment}
use namespace_cost_governor.Outside.{Outside}

unfoldable pub is_excluded : String → List Exclusion → Bool
is_excluded workload_name [] = false
is_excluded workload_name (ex ∷ exclusions) =
    let rest = is_excluded workload_name exclusions in
    if not (ex.name == "") && ex.name == workload_name then true else rest

module _ {F : Float64} (O : Outside F) where
  -- Whether the selector of one exclusion matches; none is a nil or malformed selector.
  selects : Exclusion → Deployment → Bool
  selects ex d = elim ex.label_selector [
    | none ↦ false
    | some selector ↦ elim (O.selector_matches selector d.labels) [ none ↦ false | some b ↦ b ]
  ]

  unfoldable pub is_label_excluded : Deployment → List Exclusion → Bool
  unfolding selects
  is_label_excluded d [] = false
  is_label_excluded d (ex ∷ exclusions) =
      let rest = is_label_excluded d exclusions in if selects ex d then true else rest
