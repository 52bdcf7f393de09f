-- ===== src/DeepCopy/Allocating.antt =====
-- Code that allocates: it fails only where it reads through an address at which nothing of the type
-- lies. An array is allocated with the copied elements in it, not filled one by one: until the
-- function returns nothing else reads it.
use namespace_cost_governor.Base.{ℕ, ◌+◌, Option, none, some, List, [], ◌∷◌, if◌then◌else◌, nat_beq}
use namespace_cost_governor.DeepCopy.Structs.{Address}
use namespace_cost_governor.DeepCopy.Heap.{Heap, Cell}
use namespace_cost_governor.DeepCopy.Cells.{Kind}
use namespace_cost_governor.DeepCopy.Reading.{at}

abbrev pub Allocating : Type 0 → Type 0
Allocating A = Heap → Option (A × Heap)

abbrev pub pure : {A : Type 0} → A → Allocating A
pure a h = some (a, h)

infixl 5 ◌>>=◌
unfoldable pub ◌>>=◌ : {A B : Type 0} → Allocating A → (A → Allocating B) → Allocating B
◌>>=◌ m f h = elim (m h) [ none ↦ none | some (a, h') ↦ f a h' ]

-- `*p`
unfoldable pub load : {A : Type 0} → Kind A → ℕ → Allocating A
unfolding at
load k p h = elim (at k p h) [ none ↦ none | some x ↦ some (x, h) ]

-- `*p = c`
unfoldable pub write : ℕ → Cell → Heap → Heap
write p c h = record h { cell = λ a. if nat_beq a p then some c else h.cell a }

-- `new` and `make`
unfoldable pub new : {A : Type 0} → Kind A → A → Allocating ℕ
unfolding write
new k x h = some (h.next, record (write h.next (k.wrap x) h) { next = h.next + 1 })

module _ {A : Type 0} (deep_copy_into : A → Allocating A) where
  -- `for i := range *in { (*in)[i].DeepCopyInto(&(*out)[i]) }`
  unfoldable pub copy_each : List A → Allocating (List A)
  unfolding ◌>>=◌
  copy_each [] = pure []
  copy_each (x ∷ xs) = do y ← deep_copy_into x; ys ← copy_each xs; pure (y ∷ ys)

  -- `if in == nil { return nil }; out := new(T); in.DeepCopyInto(out); return out`, and the same for
  -- a field that is a slice or a pointer.
  unfoldable pub copy_ref : Kind A → Address A → Allocating (Address A)
  unfolding ◌>>=◌ load new
  copy_ref k none = pure none
  copy_ref k (some p) = do x ← load k p; y ← deep_copy_into x; q ← new k y; pure (some q)
