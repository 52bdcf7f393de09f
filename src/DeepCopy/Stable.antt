-- ===== src/DeepCopy/Stable.antt =====
-- Readings that see the same in every heap that keeps the allocated cells.
use namespace_cost_governor.Base.{ℕ, ◌≤◌, ◌≡◌, refl, Option, none, some, List, [], ◌∷◌, arith}
use namespace_cost_governor.DeepCopy.Structs.{Address}
use namespace_cost_governor.DeepCopy.Heap.{Heap, Cell}
use namespace_cost_governor.DeepCopy.Cells.{Kind}
use namespace_cost_governor.DeepCopy.Reading.{Reading, pure, ◌>>=◌, at, read_each, read_ref}

-- `g` has what `h` has at the addresses from `n` on.
pub record Kept (n : ℕ) (h g : Heap) : Type 0 where
  pub at_cell : (a : ℕ) (c : Cell) → n ≤ a → h.cell a ≡ some c → g.cell a ≡ some c

pub record IsStable {A : Type 0} (m : Reading A) : Type 0 where
  pub apply : (h g : Heap) (t : A) → Kept 0 h g → m h ≡ some t → m g ≡ some t

-- What a successful reading was made of.
pub >>=-eq-some :
    {A B : Type 0} (m : Reading A) (f : A → Reading B) (h : Heap) {t : B}
    → (m >>= f) h ≡ some t
    → (a : A) × (m h ≡ some a) × (f a h ≡ some t)
unfolding ◌>>=◌
>>=-eq-some {A} m f h {t} e = split (m h) refl
  where
    split : (o : Option A) → m h ≡ o → (a : A) × (m h ≡ some a) × (f a h ≡ some t)
    split none p = cc (rw (p, ◌>>=◌) at e)
    split (some a) p = (a, p, rw (p, ◌>>=◌) at e)

-- A reading goes on with what its first part reads.
pub >>=-some :
    {A B : Type 0} (m : Reading A) (f : A → Reading B) (h : Heap) {a : A}
    → m h ≡ some a
    → (m >>= f) h ≡ f a h
unfolding ◌>>=◌
>>=-some m f h e = rw (e, ◌>>=◌)

pub at-eq-some :
    {A : Type 0} (k : Kind A) (p : ℕ) (h : Heap) {x : A}
    → at k p h ≡ some x
    → (c : Cell) × (h.cell p ≡ some c) × (k.unwrap c ≡ some x)
unfolding at
at-eq-some k p h {x} e = split (h.cell p) refl
  where
    split :
        (o : Option Cell) → h.cell p ≡ o → (c : Cell) × (h.cell p ≡ some c) × (k.unwrap c ≡ some x)
    split none q = cc (rw (q, at) at e)
    split (some c) q = (c, q, rw (q, at) at e)

pub IsStable-pure : {A : Type 0} (x : A) → IsStable (pure x)
IsStable-pure x = record { apply = λ h g t k e. e }

pub IsStable-at : {A : Type 0} (k : Kind A) (p : ℕ) → IsStable (at k p)
unfolding at
IsStable-at k p = record {
  apply = λ h g t kept e.
      let (c, found, typed) = at-eq-some k p h e in
      rw (kept.at_cell p c (omega arith) found, at) typed;
}

pub IsStable-bind :
    {A B : Type 0} (m : Reading A) (f : A → Reading B)
    → IsStable m
    → ((a : A) → IsStable (f a))
    → IsStable (m >>= f)
IsStable-bind m f sm sf = record {
  apply = λ h g t kept e.
      let (a, first, rest) = >>=-eq-some m f h e in
      rw (>>=-some m f g (sm.apply h g a kept first)) ((sf a).apply h g t kept rest);
}

pub ruleset stable_rules = (IsStable-pure, IsStable-at, IsStable-bind)

module _ {A B : Type 0} (read : A → Reading B) (stable : (x : A) → IsStable (read x)) where
  pub IsStable-read_each : (xs : List A) → IsStable (read_each read xs)
  unfolding read_each
  IsStable-read_each [] = search stable_rules
  IsStable-read_each (x ∷ xs) =
      IsStable-bind _ _ (stable x)
        λ y. IsStable-bind _ _ (IsStable-read_each xs) λ ys. IsStable-pure _

  pub IsStable-read_ref : (k : Kind A) (r : Address A) → IsStable (read_ref read k r)
  unfolding read_ref
  IsStable-read_ref k none = search stable_rules
  IsStable-read_ref k (some p) =
      IsStable-bind _ _ (IsStable-at k p) λ x. IsStable-bind _ _ (stable x) λ y. IsStable-pure _
