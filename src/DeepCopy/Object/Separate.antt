-- ===== src/DeepCopy/Object/Separate.antt =====
-- A deep copy and its original: the copy reads the same, and neither sees what is later written
-- through the other.
use namespace_cost_governor.Base.{
  ℕ, ◌≤◌, ◌<◌, ◌≡◌, refl, ap, ◌∙◌, Option, none, some, List, All, arith,
}
use namespace_cost_governor.DeepCopy.Heap.{Heap, Cell}
use namespace_cost_governor.DeepCopy.Cells.{
  Kind, budget_kind, budget_list_kind, report_kind, report_list_kind,
}
use namespace_cost_governor.DeepCopy.Reading
use namespace_cost_governor.DeepCopy.Reading.{Reading, at, read_ref}
use namespace_cost_governor.DeepCopy.Allocating.{Allocating, pure, ◌>>=◌, copy_ref}
use namespace_cost_governor.DeepCopy.Foreign.{Foreign}
use namespace_cost_governor.DeepCopy.Foreign.Laws.{IsLawful}
use namespace_cost_governor.DeepCopy.Stable.{
  IsStable, IsStable-at, IsStable-bind, IsStable-pure, >>=-eq-some,
}
use namespace_cost_governor.DeepCopy.Copied.{IsSound, IsCopy, >>=-runs}
use namespace_cost_governor.DeepCopy.Parts.{copy_ref-IsCopy}
use namespace_cost_governor.DeepCopy.Writes.{write_all, write_all-Kept, write_all-Grows}
use namespace_cost_governor.DeepCopy.Object.{
  Object, Contents, as_object, read_at, read_object, deep_copy_object,
}
use namespace_cost_governor.DeepCopy.Budget.Copies.{
  namespace_budget-IsCopy, namespace_budget_list-IsCopy,
}
use namespace_cost_governor.DeepCopy.Report.Copies.{cost_report-IsCopy, cost_report_list-IsCopy}

module _ {A B : Type 0} {f : A → Allocating A} {read : A → Reading B} (c : IsCopy f read)
    (k : Kind A) (wrap : B → Contents) (con : Option ℕ → Object) where
  read_at-read_ref :
      (p : Option ℕ) (t : Contents) (h : Heap)
      → read_at read wrap k p h ≡ some t
      → (y : B) × (read_ref read k p h ≡ some (some y)) × (wrap y ≡ t)
  unfolding read_at read_ref Reading.◌>>=◌
  read_at-read_ref none t h e = cc
  read_at-read_ref (some p) t h e =
      let (x, e1, e2) =
        >>=-eq-some (at k p) (λ x. Reading.◌>>=◌ (read x) λ y. Reading.pure (wrap y)) h e in
      let (y, e3, e4) = >>=-eq-some (read x) (λ y. Reading.pure (wrap y)) h e2 in
      (y, ground (arith, e1, e3), cc e4)

  read_ref-read_at :
      (q : Option ℕ) (y : B) (g : Heap)
      → read_ref read k q g ≡ some (some y)
      → (read_at read wrap k q g ≡ some (wrap y)) × ((a : ℕ) × (q ≡ some a))
  unfolding read_at read_ref Reading.◌>>=◌
  read_ref-read_at none y g e = cc
  read_ref-read_at (some q) y g e =
      let (x, e1, e2) =
        >>=-eq-some (at k q) (λ x. Reading.◌>>=◌ (read x) λ z. Reading.pure (some z)) g e in
      let (z, e3, e4) = >>=-eq-some (read x) (λ z. Reading.pure (some z)) g e2 in
      (ground (arith, e1, e3, e4), (q, refl))

  IsStable-read_at : (p : Option ℕ) → IsStable (read_at read wrap k p)
  unfolding read_at
  IsStable-read_at none = record { apply = λ h g t kept e. cc }
  IsStable-read_at (some p) =
      IsStable-bind _ _ (IsStable-at k p) λ x. IsStable-bind _ _ (c.stable x) λ y. IsStable-pure _

  separate :
      ((p : Option ℕ) → read_object (con p) ≡ read_at read wrap k p)
      → (p : Option ℕ) (t : Contents) (h : Heap) (old new : List (ℕ × Cell)) → IsSound h
      → read_at read wrap k p h ≡ some t
      → All (λ w. w.0 < h.next) old
      → All (λ w. h.next ≤ w.0) new
      → (copy : Object) × (g : Heap) × ((copy_ref f k p >>= λ a. pure (as_object con a)) h
          ≡ some (some copy, g))
        × (read_object copy (write_all old g) ≡ some t)
        × (read_object (con p) (write_all new g) ≡ some t)
  unfolding as_object
  separate same p t h old new sound e below above =
      let (y, e1, is_t) = read_at-read_ref p t h e in
      let copy = (copy_ref-IsCopy c k).copied p (some y) h sound e1 in
      let kept = write_all-Kept h.next old copy.heap below in
      let seen = copy.fresh.sees (write_all old copy.heap) kept in
      let (reads, (q, is_q)) = read_ref-read_at copy.value y (write_all old copy.heap) seen in
      let found : as_object con copy.value ≡ some (con copy.value) = rw is_q refl in
      (
        con copy.value,
        copy.heap,
        >>=-runs (copy_ref f k p) _ h copy.runs
            ∙ ap (λ (o : Option Object). some (o, copy.heap)) found,
        rw (same copy.value) (reads ∙ ap some is_t),
        rw (same p) (
            (IsStable-read_at p).apply h (write_all new copy.heap) t
              (write_all-Grows new h copy.heap sound copy.grows above) e),
      )

-- Of an object that can be read, in a heap with nothing at the addresses that were never allocated,
-- `DeepCopyObject` returns a pointer to a copy, where the deep copies of Kubernetes' types are
-- copies: the copy reads as the object did, whatever is then written at the addresses that were
-- allocated before, and the object reads as it did, whatever is then written at the others.
pub deep_copy_object-separate :
    (foreign : Foreign)
    → IsLawful foreign
    → (o : Object) (t : Contents) (h : Heap) (old new : List (ℕ × Cell)) → IsSound h
    → read_object o h ≡ some t
    → All (λ w. w.0 < h.next) old
    → All (λ w. h.next ≤ w.0) new
    → (copy : Object) × (g : Heap) × (deep_copy_object foreign o h ≡ some (some copy, g))
      × (read_object copy (write_all old g) ≡ some t)
      × (read_object o (write_all new g) ≡ some t)
unfolding deep_copy_object read_object
deep_copy_object-separate foreign lawful (Object.namespace_budget p) =
    separate (namespace_budget-IsCopy foreign lawful) budget_kind Contents.namespace_budget
      Object.namespace_budget (λ p. refl) p
deep_copy_object-separate foreign lawful (Object.namespace_budget_list p) =
    separate (namespace_budget_list-IsCopy foreign lawful) budget_list_kind
      Contents.namespace_budget_list Object.namespace_budget_list (λ p. refl) p
deep_copy_object-separate foreign lawful (Object.cost_report p) =
    separate (cost_report-IsCopy foreign lawful) report_kind Contents.cost_report Object.cost_report
      (λ p. refl) p
deep_copy_object-separate foreign lawful (Object.cost_report_list p) =
    separate (cost_report_list-IsCopy foreign lawful) report_list_kind Contents.cost_report_list
      Object.cost_report_list (λ p. refl) p
