-- ===== src/Idle/Detector/Tallies/Decision.antt =====
-- The averages and the decision of `DetectIdle`, against means over lists of values.
use namespace_cost_governor.Base.{
  suc, ◌+◌, String, ◌==◌, Option, none, some, Bool, false, List, [], ◌∷◌, any, ◌≡◌, refl, sym, ap,
  ◌∙◌, length, Bool-cases, inl, inr, arith,
}
use namespace_cost_governor.Base.Dict
use namespace_cost_governor.Base.Dict.{Dict, Distinct, Distinct-insert, same_key}
use namespace_cost_governor.Base.Int.{pos}
use namespace_cost_governor.Go.Float.{Float64}
use namespace_cost_governor.Go.Time.{Time}
use namespace_cost_governor.Metrics.{Sample}
use namespace_cost_governor.Idle.{IdleWorkload}
use namespace_cost_governor.Idle.Names.{pod_to_deployment}
use namespace_cost_governor.Idle.Detector.{
  Tally, or_else, no_tally, count_value, mean_at, means_into, tally_by_pod, tally_by_deployment,
  idle_of, average_by_pod, idle_list,
}
use namespace_cost_governor.Idle.Detector.Tallies.{
  values_of, mean_of, tally, summed, lookup-sums, lookup-counts, tally-Distinct,
}
use namespace_cost_governor.Outside.{Outside}
use namespace_cost_governor.Outside.Ranging.{Ranges}

abbrev pub map_some : {A B : Type 0} → (A → B) → Option A → Option B
map_some f none = none
map_some f (some a) = some (f a)

map_some-ext :
    {A B : Type 0} (f g : A → B)
    → ((a : A) → f a ≡ g a)
    → (o : Option A) → map_some f o ≡ map_some g o
map_some-ext f g same none = refl
map_some-ext f g same (some a) = ap some (same a)

abbrev or_before : {A : Type 0} → Option A → Option A → Option A
or_before none before = before
or_before (some a) before = some a

-- The entries of a map by pod, under the Deployments of the pods.
abbrev pub by_deployment : {V : Type 0} → Dict V → List (String × V)
by_deployment [] = []
by_deployment ((pod, avg) ∷ pods) = (pod_to_deployment pod, avg) ∷ by_deployment pods

module _ {F : Float64} where
  -- The values of the samples, under their pods.
  abbrev pub by_pod : List (Sample F) → List (String × F.Carrier)
  by_pod [] = []
  by_pod (s ∷ samples) = (s.pod, s.value) ∷ by_pod samples

  tally_by_pod-tally :
      (samples : List (Sample F)) (t : Tally F)
      → tally_by_pod samples t ≡ tally F (by_pod samples) t
  unfolding tally_by_pod tally
  tally_by_pod-tally [] t = refl
  tally_by_pod-tally (s ∷ samples) t = tally_by_pod-tally samples (count_value s.pod s.value t)

  tally_by_deployment-tally :
      (pods : Dict F.Carrier) (t : Tally F)
      → tally_by_deployment {F = F} pods t ≡ tally F (by_deployment pods) t
  unfolding tally_by_deployment tally
  tally_by_deployment-tally [] t = refl
  tally_by_deployment-tally ((pod, avg) ∷ pods) t =
      tally_by_deployment-tally pods (count_value (pod_to_deployment pod) avg t)

  -- The means of a tally, as a map.
  lookup-means_into :
      (k : String) (t : Tally F) (sums result : Dict F.Carrier)
      → Distinct sums
      → Dict.lookup k (means_into t sums result)
        ≡ or_before (map_some (mean_at t k) (Dict.lookup k sums)) (Dict.lookup k result)
  unfolding means_into Distinct Dict.lookup
  lookup-means_into k t [] result distinct = refl
  lookup-means_into k t ((j, sum) ∷ sums) result distinct =
      lookup-means_into k t sums (Dict.insert j (mean_at t j sum) result) distinct.1
      ∙ elim (Bool-cases (j == k)) [
        | inl same ↦
            let key = same_key j k same in
            rw (Dict.lookup-insert k j (mean_at t j sum) result, same, key, rw key at distinct.0)
              refl
        | inr other ↦ rw (Dict.lookup-insert k j (mean_at t j sum) result, other) refl
      ]

module _ (F : Float64) where
  mean_at-mean_of :
      (k : String) (pairs : List (String × F.Carrier))
      → map_some (mean_at (tally F pairs no_tally) k) (Dict.lookup k (tally F pairs no_tally).sums)
        ≡ mean_of F (values_of k pairs)
  unfolding mean_at mean_of summed or_else Dict.lookup
  mean_at-mean_of k pairs =
      map_some-ext _ (λ s. F.div s (F.of_int (pos (0 + length (values_of k pairs)))))
        (λ s. ap (λ n. F.div s (F.of_int (pos n))) (lookup-counts F k pairs no_tally)) _
      ∙ rw (lookup-sums F k pairs no_tally) (of_values (values_of k pairs))
    where
      of_values :
          (vs : List F.Carrier)
          → map_some (λ s. F.div s (F.of_int (pos (0 + length vs)))) (summed F none vs)
            ≡ mean_of F vs
      of_values [] = refl
      of_values (v ∷ vs) = let n : 0 + suc (length vs) ≡ suc (length vs) = omega arith in rw n refl

  tally-means :
      (k : String) (pairs : List (String × F.Carrier)) (O : Outside F)
      → Ranges O
      → let t = tally F pairs no_tally in
        map_some (mean_at t k) (Dict.lookup k (O.range F.Carrier t.sums))
        ≡ mean_of F (values_of k pairs)
  unfolding Distinct
  tally-means k pairs O R =
      let distinct = tally-Distinct F pairs no_tally tt in
      rw (R.lookup-range F.Carrier (tally F pairs no_tally).sums k distinct)
        (mean_at-mean_of k pairs)

or_before-none : {A : Type 0} (o : Option A) → or_before o none ≡ o
or_before-none none = refl
or_before-none (some a) = refl

-- The comparison of a mean with the threshold; a Deployment with no samples is not idle.
abbrev pub below : (F : Float64) → F.Carrier → Option F.Carrier → Bool
below F threshold none = false
below F threshold (some m) = F.ltb m threshold

abbrev pub named : String → IdleWorkload → Bool
named dep x = x.name == dep

idle_of-named :
    {F : Float64} (namespace dep : String) (start : Time) (threshold : F.Carrier) (t : Tally F)
    (sums : Dict F.Carrier)
    → Distinct sums
    → any (named dep) (idle_of {F = F} namespace start threshold t sums)
      ≡ below F threshold (map_some (mean_at t dep) (Dict.lookup dep sums))
unfolding idle_of Distinct Dict.lookup
idle_of-named namespace dep start threshold t [] distinct = refl
idle_of-named {F} namespace dep start threshold t ((j, sum) ∷ sums) distinct =
    let rest = idle_of-named {F = F} namespace dep start threshold t sums distinct.1 in
    elim (Bool-cases (j == dep)) [
      | inr other ↦ elim (Bool-cases (F.ltb (mean_at t j sum) threshold)) [
        | inl low ↦ rw (low, other) rest
        | inr high ↦ rw (high, other) rest
      ]
      | inl same ↦
          let key = same_key j dep same in
          elim (Bool-cases (F.ltb (mean_at t j sum) threshold)) [
            | inl low ↦ rw (low, same) (sym (rw key at low))
            | inr high ↦ rw (high, same) (rest ∙ rw (rw key at distinct.0) (sym (rw key at high)))
          ]
    ]

module _ {F : Float64} (O : Outside F) (R : Ranges O) where
  -- The map of the means of a tally.
  pub lookup-means :
      (k : String) (pairs : List (String × F.Carrier))
      → let t = tally F pairs no_tally in
        Dict.lookup k (means_into t (O.range F.Carrier t.sums) []) ≡ mean_of F (values_of k pairs)
  unfolding Dict.lookup Distinct
  lookup-means k pairs =
      let t = tally F pairs no_tally in
      lookup-means_into k t (O.range F.Carrier t.sums) []
        (R.range-Distinct F.Carrier t.sums (tally-Distinct F pairs no_tally tt))
      ∙ or_before-none _
      ∙ tally-means F k pairs O R

  -- The average of a pod is the sum of its samples' values, in their order and from 0, divided by
  -- their number; a pod without samples has none. This asks that a range over a map gives each
  -- entry once.
  pub average_by_pod-mean :
      (pod : String) (samples : List (Sample F))
      → Dict.lookup pod (average_by_pod O samples) ≡ mean_of F (values_of pod (by_pod samples))
  unfolding average_by_pod
  average_by_pod-mean pod samples =
      rw (tally_by_pod-tally samples no_tally) (lookup-means pod (by_pod samples))

  -- A Deployment is found idle exactly if the mean over its pods of their averages, in the order in
  -- which the map of averages is ranged over, is below the threshold; one without samples is not.
  -- This asks that a range over a map gives each entry once.
  pub idle_list-decision :
      (namespace dep : String) (start : Time) (threshold : F.Carrier) (samples : List (Sample F))
      → any (named dep) (idle_list O namespace start threshold samples)
        ≡ below F threshold (
            mean_of F
              (values_of dep (by_deployment (O.range F.Carrier (average_by_pod O samples)))))
  unfolding idle_list Distinct
  idle_list-decision namespace dep start threshold samples =
      let pairs = by_deployment (O.range F.Carrier (average_by_pod O samples)) in
      let t = tally F pairs no_tally in
      rw (tally_by_deployment-tally {F = F} (O.range F.Carrier (average_by_pod O samples)) no_tally)
        (idle_of-named {F = F} namespace dep start threshold t (O.range F.Carrier t.sums)
            (R.range-Distinct F.Carrier t.sums (tally-Distinct F pairs no_tally tt))
          ∙ ap (below F threshold) (tally-means F dep pairs O R))
