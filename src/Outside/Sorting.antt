-- ===== src/Outside/Sorting.antt =====
-- What the code relies on in `sort.Slice`.
use namespace_cost_governor.Base.{Bool, false, List, [], ◌∷◌, ◌≡◌, All, length}
use namespace_cost_governor.Go.Float.{Float64}
use namespace_cost_governor.Outside.{Outside}
use namespace_cost_governor.Outside.Laws.{In}

-- No element is less than one before it.
abbrev pub IsSorted : {A : Type 0} → (A → A → Bool) → List A → Type 0
IsSorted less [] = Unit
IsSorted less (x ∷ xs) = All (λ y. less y x ≡ false) xs × IsSorted less xs

-- `sort.Slice` sorts the list `xs` by `less`: it keeps the elements and orders them.
pub record Sorts {F : Float64} (O : Outside F) {A : Type 0} (less : A → A → Bool) (xs : List A)
    : Type 0 where
  pub sorted : IsSorted less (O.sort_slice A less xs)
  pub length_kept : length (O.sort_slice A less xs) ≡ length xs
  pub comes_from : (a : A) → In a (O.sort_slice A less xs) → In a xs
  pub gets_in : (a : A) → In a xs → In a (O.sort_slice A less xs)
