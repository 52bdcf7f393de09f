-- ===== src/Idle/Detector/Tallies.antt =====
-- The maps `sums` and `counts` after a loop, against the lists of values that went into them.
pub mod Decision
use namespace_cost_governor.Base.{
  ℕ, zero, suc, ◌+◌, String, ◌==◌, Option, none, some, Bool, true, false, List, [], ◌∷◌, map, ◌≡◌,
  refl, sym, ap, ◌∙◌, length, if◌then◌else◌, Bool-cases, Option-cases, inl, inr, arith, eq_iff,
}
use namespace_cost_governor.Base.Dict
use namespace_cost_governor.Base.Dict.{Dict, Distinct, Distinct-insert, same_key}
use namespace_cost_governor.Base.Int.{pos}
use namespace_cost_governor.Go.Float.{Float64}
use namespace_cost_governor.Idle.Detector.{
  Tally, or_else, no_tally, count_value, mean_at, means_into,
}

-- The values that stand under a key, in order.
pub values_of : {V : Type 0} → String → List (String × V) → List V
values_of k [] = []
values_of k ((j, v) ∷ pairs) = let rest = values_of k pairs in if j == k then v ∷ rest else rest

module _ (F : Float64) where
  pub sum_from : F.Carrier → List F.Carrier → F.Carrier
  sum_from s [] = s
  sum_from s (v ∷ vs) = sum_from (F.add s v) vs

  -- Their mean; there is none of no values.
  pub mean_of : List F.Carrier → Option F.Carrier
  unfolding sum_from
  mean_of [] = none
  mean_of (v ∷ vs) =
      some (F.div (sum_from (F.of_int (pos 0)) (v ∷ vs)) (F.of_int (pos (length (v ∷ vs)))))

  -- The loop over pairs that both loops of the detector are.
  unfoldable pub tally : List (String × F.Carrier) → Tally F → Tally F
  tally [] t = t
  tally ((k, v) ∷ pairs) t = tally pairs (count_value k v t)

  pub summed : Option F.Carrier → List F.Carrier → Option F.Carrier
  unfolding sum_from or_else
  summed o [] = o
  summed o (v ∷ vs) = some (sum_from (or_else (F.of_int (pos 0)) o) (v ∷ vs))

  summed-next :
      (o : Option F.Carrier) (v : F.Carrier) (vs : List F.Carrier)
      → summed (some (F.add (or_else (F.of_int (pos 0)) o) v)) vs ≡ summed o (v ∷ vs)
  unfolding summed sum_from or_else
  summed-next o v [] = refl
  summed-next o v (u ∷ us) = refl

  pub lookup-sums :
      (k : String) (pairs : List (String × F.Carrier)) (t : Tally F)
      → Dict.lookup k (tally pairs t).sums ≡ summed (Dict.lookup k t.sums) (values_of k pairs)
  unfolding tally values_of count_value summed
  lookup-sums k [] t = refl
  lookup-sums k ((j, v) ∷ pairs) t =
      let sum = F.add (or_else (F.of_int (pos 0)) (Dict.lookup j t.sums)) v in
      lookup-sums k pairs (count_value j v t) ∙ elim (Bool-cases (j == k)) [
        | inl same ↦
            rw (Dict.lookup-insert k j sum t.sums, same, same_key j k same)
              (summed-next (Dict.lookup k t.sums) v (values_of k pairs))
        | inr other ↦ rw (Dict.lookup-insert k j sum t.sums, other) refl
      ]

  pub lookup-counts :
      (k : String) (pairs : List (String × F.Carrier)) (t : Tally F)
      → or_else 0 (Dict.lookup k (tally pairs t).counts)
        ≡ or_else 0 (Dict.lookup k t.counts) + length (values_of k pairs)
  unfolding tally values_of count_value or_else
  lookup-counts k [] t = omega arith
  lookup-counts k ((j, v) ∷ pairs) t =
      let count = or_else 0 (Dict.lookup j t.counts) + 1 in
      lookup-counts k pairs (count_value j v t) ∙ elim (Bool-cases (j == k)) [
        | inl same ↦
            rw (Dict.lookup-insert k j count t.counts, same, same_key j k same) (omega arith)
        | inr other ↦ rw (Dict.lookup-insert k j count t.counts, other) refl
      ]

  pub tally-Distinct :
      (pairs : List (String × F.Carrier)) (t : Tally F)
      → Distinct t.sums
      → Distinct (tally pairs t).sums
  unfolding tally count_value
  tally-Distinct [] t distinct = distinct
  tally-Distinct ((k, v) ∷ pairs) t distinct =
      tally-Distinct pairs (count_value k v t) (Distinct-insert k _ t.sums distinct)
