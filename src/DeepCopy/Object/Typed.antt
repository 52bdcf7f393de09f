-- ===== src/DeepCopy/Object/Typed.antt =====
-- The dynamic type of what `DeepCopyObject` returns.
use namespace_cost_governor.Base.{ℕ, Bool, true, false, ◌≡◌, refl, Option, none, some, arith}
use mathlib.Core.Option
use namespace_cost_governor.DeepCopy.Heap.{Heap}
use namespace_cost_governor.DeepCopy.Cells.{
  Kind, budget_kind, budget_list_kind, report_kind, report_list_kind,
}
use namespace_cost_governor.DeepCopy.Allocating.{Allocating, pure, ◌>>=◌, copy_ref, load, new}
use namespace_cost_governor.DeepCopy.Foreign.{Foreign}
use namespace_cost_governor.DeepCopy.Copied.{runs_parts}
use namespace_cost_governor.DeepCopy.Budget.{}
use namespace_cost_governor.DeepCopy.Object.{Object, as_object, deep_copy_object}

pub data GoType : Type 0 where
  namespace_budget namespace_budget_list cost_report cost_report_list : GoType

abbrev pub go_type : Object → GoType
go_type (Object.namespace_budget p) = GoType.namespace_budget
go_type (Object.namespace_budget_list p) = GoType.namespace_budget_list
go_type (Object.cost_report p) = GoType.cost_report
go_type (Object.cost_report_list p) = GoType.cost_report_list

abbrev pub receiver : Object → Option ℕ
receiver (Object.namespace_budget p) = p
receiver (Object.namespace_budget_list p) = p
receiver (Object.cost_report p) = p
receiver (Object.cost_report_list p) = p

abbrev pub holds_nil : Option Object → Bool
holds_nil none = false
holds_nil (some o) = elim (receiver o) [ none ↦ true | some _ ↦ false ]

-- `r` is what an interface may hold for a receiver `p` of type `ty`: nil at nil, else a pointer of
-- that type that is not nil.
abbrev IsTyped : GoType → Option ℕ → Option Object → Type 0
IsTyped ty p r = (Option.map go_type r ≡ Option.map (λ _. ty) p) × (holds_nil r ≡ false)

module _ {A : Type 0} (f : A → Allocating A) (k : Kind A) (wrap : Option ℕ → Object) (ty : GoType)
    (typed : (q : ℕ) → go_type (wrap (some q)) ≡ ty)
    (shown : (q : ℕ) → receiver (wrap (some q)) ≡ some q) where
  -- The copy of a pointer that is not nil is not nil.
  copy_ref-some :
      (p : ℕ) (c : Option ℕ) (h g : Heap)
      → copy_ref f k (some p) h ≡ some (c, g)
      → (q : ℕ) × (c ≡ some q)
  unfolding copy_ref
  copy_ref-some p c h g e =
      let (x, h1, _, e1) = runs_parts (load k p) _ h e in
      let (y, h2, _, e2) = runs_parts (f x) _ h1 e1 in
      let (q, h3, _, e3) = runs_parts (new k y) (λ q. pure (some q)) h2 e2 in (q, cc e3)

  deep_copy_object-IsTyped :
      (p : Option ℕ) (r : Option Object) (h g : Heap)
      → (copy_ref f k p >>= λ c. pure (as_object wrap c)) h ≡ some (r, g)
      → IsTyped ty p r
  unfolding as_object copy_ref ◌>>=◌
  deep_copy_object-IsTyped none r h g e = ground arith
  deep_copy_object-IsTyped (some p) r h g e =
      let (c, h1, e1, e2) = runs_parts (copy_ref f k (some p)) _ h e in
      let (q, is_q) = copy_ref-some p c h h1 e1 in ground (arith, typed q, shown q, is_q, e2)

-- What `DeepCopyObject` returns has the type of the receiver, and is no interface that holds nil: for
-- a nil receiver it is the nil interface, which no type has.
pub deep_copy_object-typed :
    (foreign : Foreign) (o : Object) (r : Option Object) (h g : Heap)
    → deep_copy_object foreign o h ≡ some (r, g)
    → (Option.map go_type r ≡ Option.map (λ _. go_type o) (receiver o)) × (holds_nil r ≡ false)
unfolding deep_copy_object
deep_copy_object-typed foreign (Object.namespace_budget p) r h g e =
    deep_copy_object-IsTyped _ budget_kind Object.namespace_budget _ (λ q. refl) (λ q. refl) p r h g
      e
deep_copy_object-typed foreign (Object.namespace_budget_list p) r h g e =
    deep_copy_object-IsTyped _ budget_list_kind Object.namespace_budget_list _ (λ q. refl)
      (λ q. refl) p r h g e
deep_copy_object-typed foreign (Object.cost_report p) r h g e =
    deep_copy_object-IsTyped _ report_kind Object.cost_report _ (λ q. refl) (λ q. refl) p r h g e
deep_copy_object-typed foreign (Object.cost_report_list p) r h g e =
    deep_copy_object-IsTyped _ report_list_kind Object.cost_report_list _ (λ q. refl) (λ q. refl) p
      r h g e
