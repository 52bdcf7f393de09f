-- ===== src/Cli/Status/Shown.antt =====
-- What `kubectl budget status` shows.
use namespace_cost_governor.Base.{
  String, List, [], ◌∷◌, ◌++◌, map, ◌≡◌, ok, length, ◌>>=◌, ◌∙◌, ap, inl, inr, Result-cases, IsErr,
}
use mathlib.Core.Path.{subst}
use namespace_cost_governor.Go.Float.{Float64}
use namespace_cost_governor.Go.Time.{Calendar}
use namespace_cost_governor.Api.{NamespaceBudget, IdleWorkloadStatus}
use namespace_cost_governor.Api.Kube.{Condition}
use namespace_cost_governor.Outside.{Outside}
use namespace_cost_governor.Cli.Console.{Console, build_client}
use namespace_cost_governor.Cli.Console.Shown.{
  IsTerminal, Emits, Emits-bind, nonempty, Emits-pure, Emits-say, Emits-table, Emits-build_client,
  append_empty,
}
use namespace_cost_governor.Cli.Status.{
  status_head, summary_row, idle_row, condition_row, print_summary, print_idle, print_conditions,
  print_status, fetch_status, status_cmd,
}
use namespace_cost_governor.Cli.Validation.{validate_namespace}

-- A title, a head and a row for each element; nothing where there is no element.
abbrev pub section_texts : {A : Type 0} → String → String → (A → String) → List A → List String
section_texts title head row [] = []
section_texts title head row (x ∷ xs) = title ∷ head ∷ map row (x ∷ xs)

abbrev pub idle_texts : Calendar → List IdleWorkloadStatus → List String
idle_texts cal = section_texts "\nIdle workloads:\n" "  NAME\tIDLE SINCE\n" (λ i. idle_row cal i)

abbrev pub condition_texts : List Condition → List String
condition_texts = section_texts "\nConditions:\n" "  TYPE\tSTATUS\tMESSAGE\n" (λ c. condition_row c)

-- The status of a budget as it is shown.
pub status_texts : Calendar → String → NamespaceBudget → List String
status_texts cal namespace b =
    status_head
    ∷ summary_row cal namespace b
    ∷ (idle_texts cal b.status.idle_workloads ++ condition_texts b.status.conditions)

module _ {F : Float64} (O : Outside F) {S : Console O.World} (T : IsTerminal S) where
  print_idle-Emits :
      (xs : List IdleWorkloadStatus) → Emits T (idle_texts O.calendar xs) (print_idle O S xs)
  unfolding print_idle
  print_idle-Emits [] = Emits-pure T tt
  print_idle-Emits (x ∷ xs) = rw (nonempty (length xs)) (
      Emits-bind T ("\nIdle workloads:\n" ∷ []) _ _ _ (Emits-say T _)
        (λ u. Emits-table T _ "  NAME\tIDLE SINCE\n" _ (λ i. idle_row O.calendar i) (x ∷ xs) _))

  print_conditions-Emits :
      (xs : List Condition) → Emits T (condition_texts xs) (print_conditions O S xs)
  unfolding print_conditions
  print_conditions-Emits [] = Emits-pure T tt
  print_conditions-Emits (x ∷ xs) = rw (nonempty (length xs)) (
      Emits-bind T ("\nConditions:\n" ∷ []) _ _ _ (Emits-say T _)
        (λ u. Emits-table T _ "  TYPE\tSTATUS\tMESSAGE\n" _ (λ c. condition_row c) (x ∷ xs) _))

  print_status-Emits :
      (namespace : String) (b : NamespaceBudget)
      → Emits T (status_texts O.calendar namespace b) (print_status O S namespace b)
  unfolding print_status print_summary status_texts
  print_status-Emits namespace b =
      Emits-bind T (status_head ∷ summary_row O.calendar namespace b ∷ []) _ _ _
        (Emits-table T _ status_head _ (λ c. summary_row O.calendar namespace c) (b ∷ []) _)
        (λ u.
          Emits-bind T (idle_texts O.calendar b.status.idle_workloads) _ _ _
            (print_idle-Emits b.status.idle_workloads)
            (λ v. print_conditions-Emits b.status.conditions))

  -- When `status` returns no error, it fetched the object `budget` of the namespace that it was
  -- given, and the terminal shows after what it showed before: the head and the row of the budget,
  -- then, if there are idle workloads, their title and head and a row for each, and the same for
  -- the conditions. Calls on the cluster show nothing, as `quiet` says.
  pub status_cmd-shows :
      (arg : String) (w : O.World)
      → ((namespace : String) (v : O.World)
          → T.shown (O.get_budget namespace "budget" v).1 ≡ T.shown v)
      → (status_cmd O S arg w).0 ≡ ok tt
      → (namespace : String) × (b : NamespaceBudget) × (validate_namespace O arg ≡ ok namespace)
        × ((O.get_budget namespace "budget" (build_client S w).1).0 ≡ ok b)
        × (T.shown (status_cmd O S arg w).1 ≡ T.shown w ++ status_texts O.calendar namespace b)
  unfolding status_cmd fetch_status ◌>>=◌
  status_cmd-shows arg w quiet fine = elim (Result-cases (validate_namespace O arg)) [
    | inr (e, invalid) ↦ absurd (subst IsErr fine (rw invalid tt))
    | inl (namespace, valid) ↦ elim (Result-cases (build_client S w).0) [
      | inr (e, failing) ↦ absurd (subst IsErr fine (rw (valid, failing) tt))
      | inl (u, built) ↦
          let w1 = (build_client S w).1 in
          elim (Result-cases (O.get_budget namespace "budget" w1).0) [
            | inr (e, failing) ↦ absurd (subst IsErr fine (rw (valid, built, failing) tt))
            | inl (b, got) ↦ (
              namespace,
              b,
              valid,
              got,
              rw (valid, built, got)
                  ((print_status-Emits namespace b).at _ tt (rw (valid, built, got) at fine)
                    ∙ ap (λ l. l ++ status_texts O.calendar namespace b)
                        (quiet namespace w1
                          ∙ (Emits-build_client T).at w u built
                          ∙ append_empty (T.shown w))),
            )
          ]
    ]
  ]
