-- ===== src/Report/Consumers/Top.antt =====
-- Which workloads a report lists.
use namespace_cost_governor.Base.{
  ℕ, zero, suc, ◌≤◌, Bool, false, List, [], ◌∷◌, ◌++◌, map, take, drop, length, ◌≡◌, refl, ap, inl,
  inr, All, arith, ◌⊎◌, sym, ◌∙◌, Bool-cases, leb,
}
use mathlib.Core.Path.{subst}
use namespace_cost_governor.Go.Float.{Float64}
use namespace_cost_governor.Api.{TopConsumer}
use namespace_cost_governor.Outside.{Outside}
use namespace_cost_governor.Outside.Laws.{In, All-In}
use namespace_cost_governor.Outside.Sorting.{Sorts, IsSorted}
use namespace_cost_governor.Report.{Generator, WorkloadUsage}
use namespace_cost_governor.Report.Consumers.{build_top_consumers, consumer_of, uses_more}

module _ {A : Type 0} where
  take-drop : (n : ℕ) (xs : List A) → take n xs ++ drop n xs ≡ xs
  take-drop zero xs = refl
  take-drop (suc n) [] = refl
  take-drop (suc n) (x ∷ xs) = ap (λ l. x ∷ l) (take-drop n xs)

  length-take_le : (n : ℕ) (xs : List A) → length (take n xs) ≤ n
  length-take_le zero xs = omega arith
  length-take_le (suc n) [] = omega arith
  length-take_le (suc n) (x ∷ xs) = omega (arith, length-take_le n xs)

  length-take_full : (n : ℕ) (xs : List A) → n ≤ length xs → length (take n xs) ≡ n
  length-take_full zero xs h = omega arith
  length-take_full (suc n) [] h = elim h [ ]
  length-take_full (suc n) (x ∷ xs) h =
      let rest = length-take_full n xs (omega (arith, h)) in omega (arith, rest)

  In-append : (a : A) (xs ys : List A) → In a (xs ++ ys) → In a xs ⊎ In a ys
  In-append a [] ys here = inr here
  In-append a (x ∷ xs) ys (inl same) = inl (inl same)
  In-append a (x ∷ xs) ys (inr later) = elim (In-append a xs ys later) [
    | inl left ↦ inl (inr left)
    | inr right ↦ inr right
  ]

  append-In : (a : A) (xs ys : List A) → In a xs → In a (xs ++ ys)
  append-In a [] ys here = absurd here
  append-In a (x ∷ xs) ys (inl same) = inl same
  append-In a (x ∷ xs) ys (inr later) = inr (append-In a xs ys later)

  -- A list that is cut before its `n`th element had no more than `n`.
  drop-short : (n : ℕ) (xs : List A) → length xs ≤ n → drop n xs ≡ []
  drop-short zero [] h = refl
  drop-short zero (x ∷ xs) h = elim h [ ]
  drop-short (suc n) [] h = refl
  drop-short (suc n) (x ∷ xs) h = drop-short n xs (omega (arith, h))

All-drop : {A : Type 0} (P : A → Type 0) (n : ℕ) (xs : List A) → All P xs → All P (drop n xs)
All-drop P zero xs all = all
All-drop P (suc n) [] all = tt
All-drop P (suc n) (x ∷ xs) all = All-drop P n xs all.1

-- What stands behind a cut is not less than what stands before it.
sorted_cut :
    {A : Type 0} (less : A → A → Bool) (n : ℕ) (xs : List A)
    → IsSorted less xs
    → All (λ x. All (λ y. less y x ≡ false) (drop n xs)) (take n xs)
sorted_cut less zero xs sorted = tt
sorted_cut less (suc n) [] sorted = tt
sorted_cut less (suc n) (x ∷ xs) sorted =
    (All-drop (λ y. less y x ≡ false) n xs sorted.0, sorted_cut less n xs sorted.1)

-- `consumers` are those of `listed`, the heaviest five of the workloads, or all of them if they are
-- fewer; `rest` are the others.
pub record TopFive {F : Float64} (g : Generator F) (core gib : F.Carrier)
    (workloads : List (WorkloadUsage F)) (consumers : List TopConsumer) : Type 0 where
  pub listed : List (WorkloadUsage F)
  pub rest : List (WorkloadUsage F)
  pub shown : consumers ≡ map (consumer_of g core gib) listed
  pub all_or_five : (rest ≡ []) ⊎ (length listed ≡ 5)
  pub at_most_five : length listed ≤ 5
  pub counted : length (listed ++ rest) ≡ length workloads
  pub from_workloads : (v : WorkloadUsage F) → In v listed → In v workloads
  pub none_lost : (v : WorkloadUsage F) → In v workloads → In v listed ⊎ In v rest
  pub heaviest :
      (v w : WorkloadUsage F) → In v listed → In w rest → F.ltb v.core_hours w.core_hours ≡ false

module _ {F : Float64} (O : Outside F) where
  -- The consumers of a report are made of at most five of the workloads, of all of them if there
  -- are no more than five, and no workload that is left out has more core-hours than one that is
  -- listed. This asks that `sort.Slice` sorts them by
  -- core-hours.
  pub build_top_consumers-TopFive :
      (g : Generator F) (workloads : List (WorkloadUsage F)) (core gib : F.Carrier)
      → Sorts O (uses_more {F = F}) workloads
      → TopFive g core gib workloads (build_top_consumers O g workloads core gib)
  unfolding build_top_consumers
  build_top_consumers-TopFive g workloads core gib sorts =
      let sorted = O.sort_slice (WorkloadUsage F) uses_more workloads in
      let whole = take-drop 5 sorted in
      record {
        listed = take 5 sorted;
        rest = drop 5 sorted;
        shown = refl;
        all_or_five = elim (Bool-cases (leb (length sorted) 5)) [
          | inl few ↦ inl (drop-short 5 sorted (ground arith))
          | inr many ↦ inr (length-take_full 5 sorted (ground arith))
        ];
        at_most_five = length-take_le 5 sorted;
        counted = ap length whole ∙ sorts.length_kept;
        from_workloads = λ v there.
            sorts.comes_from v
              (subst (In v) whole (append-In v (take 5 sorted) (drop 5 sorted) there));
        none_lost = λ v there.
            In-append v (take 5 sorted) (drop 5 sorted)
              (subst (In v) (sym whole) (sorts.gets_in v there));
        heaviest = λ v w above below.
            All-In (λ y. uses_more y v ≡ false) w (drop 5 sorted) below
              (All-In (λ x. All (λ y. uses_more y x ≡ false) (drop 5 sorted)) v (take 5 sorted)
                above (sorted_cut uses_more 5 sorted sorts.sorted));
      }
