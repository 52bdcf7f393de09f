-- ===== src/Base/Dict.antt =====
-- Go's `map[string]V` as an association list. A write replaces an entry in its place or adds one at
-- the end; a delete removes every entry of the key.
use Prim.Native.String.{String}
use mathlib.Core.Path.{◌≡◌, refl, ◌∙◌}
use mathlib.Core.Option.{Option, none, some}
use mathlib.Core.List.{List, [], ◌∷◌}
use native.Mathlib.Omega.{arith}
use text.Mathlib.Text.{◌==◌}
use text.Mathlib.TextEquality.{eq_iff}
use mathlib.Core.Bool.{true}
use mathlib.Core.Logic.{inl, inr}
use namespace_cost_governor.Base.Tests.{Bool-cases, if◌then◌else◌}

abbrev pub Dict {ℓ} : Type ℓ → Type ℓ
Dict V = List (String × V)

module _ {ℓ} {V : Type ℓ} where
  unfoldable pub lookup : String → Dict V → Option V
  lookup k [] = none
  lookup k ((j, v) ∷ m) = if j == k then some v else lookup k m

  unfoldable pub insert : String → V → Dict V → Dict V
  insert k v [] = (k, v) ∷ []
  insert k v ((j, w) ∷ m) = if j == k then (k, v) ∷ m else (j, w) ∷ insert k v m

  unfoldable pub erase : String → Dict V → Dict V
  erase k [] = []
  erase k ((j, w) ∷ m) = let rest = erase k m in if j == k then rest else (j, w) ∷ rest

  pub lookup-insert :
      (j k : String) (v : V) (m : Dict V)
      → lookup j (insert k v m) ≡ (if k == j then some v else lookup j m)
  unfolding lookup insert
  lookup-insert j k v [] = refl
  lookup-insert j k v ((i, w) ∷ m) =
      ground (arith, eq_iff k j, eq_iff i k, eq_iff i j, lookup-insert j k v m)

  pub lookup-erase :
      (j k : String) (m : Dict V) → lookup j (erase k m) ≡ (if k == j then none else lookup j m)
  unfolding lookup erase
  lookup-erase j k [] = ground arith
  lookup-erase j k ((i, w) ∷ m) =
      ground (arith, eq_iff k j, eq_iff i k, eq_iff i j, lookup-erase j k m)

pub ruleset dict_laws = (lookup-insert, lookup-erase)

abbrev pub empty {ℓ} : {V : Type ℓ} → Dict V
empty = []

-- No key has two entries.
unfoldable pub Distinct {ℓ} : {V : Type ℓ} → Dict V → Type ℓ
unfolding lookup
Distinct [] = Unit
Distinct ((k, v) ∷ m) = (lookup k m ≡ none) × Distinct m

-- Equal texts pass the test.
pub same_key : (j k : String) → (j == k) ≡ true → j ≡ k
same_key j k e = ground (arith, eq_iff j k)

-- A write keeps the keys distinct.
pub Distinct-insert {ℓ} :
    {V : Type ℓ} (k : String) (v : V) (m : Dict V) → Distinct m → Distinct (insert k v m)
unfolding insert lookup Distinct
Distinct-insert k v [] distinct = (refl, tt)
Distinct-insert k v ((j, w) ∷ m) distinct = elim (Bool-cases (j == k)) [
  | inl same ↦ rw same (rw (same_key j k same) at distinct.0, distinct.1)
  | inr other ↦ rw other (
    lookup-insert j k v m ∙ ground (arith, eq_iff j k, eq_iff k j, distinct.0),
    Distinct-insert k v m distinct.1,
  )
]
