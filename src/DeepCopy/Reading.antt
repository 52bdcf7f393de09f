-- ===== src/DeepCopy/Reading.antt =====
-- What a value in memory stands for: reading follows every slice and pointer, and fails at an
-- address where no such value lies.
use namespace_cost_governor.Base.{ℕ, Option, none, some, List, [], ◌∷◌}
use namespace_cost_governor.DeepCopy.Structs.{Address, Target}
use namespace_cost_governor.DeepCopy.Heap.{Heap}
use namespace_cost_governor.DeepCopy.Cells.{Kind}

abbrev pub Reading : Type 0 → Type 0
Reading A = Heap → Option A

abbrev pub pure : {A : Type 0} → A → Reading A
pure a h = some a

infixl 5 ◌>>=◌
unfoldable pub ◌>>=◌ : {A B : Type 0} → Reading A → (A → Reading B) → Reading B
◌>>=◌ m f h = elim (m h) [ none ↦ none | some a ↦ f a h ]

unfoldable pub at : {A : Type 0} → Kind A → ℕ → Reading A
at k p h = elim (h.cell p) [ none ↦ none | some c ↦ k.unwrap c ]

module _ {A B : Type 0} (read : A → Reading B) where
  unfoldable pub read_each : List A → Reading (List B)
  unfolding ◌>>=◌
  read_each [] = pure []
  read_each (x ∷ xs) = do y ← read x; ys ← read_each xs; pure (y ∷ ys)

  -- A slice or a pointer.
  unfoldable pub read_ref : Kind A → Address A → Reading (Target B)
  unfolding ◌>>=◌ at
  read_ref k none = pure none
  read_ref k (some p) = do x ← at k p; y ← read x; pure (some y)
