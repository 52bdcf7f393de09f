-- ===== src/DeepCopy/Copied.antt =====
-- A copy whose cells are all new, and the rules that prove it beside the reading it copies.
use namespace_cost_governor.Base.{ℕ, ◌≤◌, ◌≡◌, refl, ap, ◌∙◌, Option, none, some, arith}
use namespace_cost_governor.DeepCopy.Heap.{Heap}
use namespace_cost_governor.DeepCopy.Reading
use namespace_cost_governor.DeepCopy.Reading.{Reading, at, read_each, read_ref}
use namespace_cost_governor.DeepCopy.Allocating.{Allocating, pure, ◌>>=◌}
use namespace_cost_governor.DeepCopy.Stable.{Kept, IsStable, >>=-eq-some, >>=-some as reading-some}

-- Nothing lies at the addresses that were not allocated.
pub record IsSound (h : Heap) : Type 0 where
  pub unused : (a : ℕ) → h.next ≤ a → h.cell a ≡ none

-- `g` has all that `h` has.
pub record Grows (h g : Heap) : Type 0 where
  pub next : h.next ≤ g.next
  pub kept : Kept 0 h g

-- `read` gives `t` in every heap that has what `h` has from `n` on, whatever lies below `n`.
pub record Fresh {A : Type 0} (n : ℕ) (h : Heap) (read : Reading A) (t : A) : Type 0 where
  pub sees : (g : Heap) → Kept n h g → read g ≡ some t

pub Grows-trans : {h g k : Heap} → Grows h g → Grows g k → Grows h k
Grows-trans p q = record {
  next = omega (arith, p.next, q.next);
  kept = record { at_cell = λ a c le e. q.kept.at_cell a c le (p.kept.at_cell a c le e) };
}

pub Grows-refl : (h : Heap) → Grows h h
Grows-refl h = record { next = omega arith; kept = record { at_cell = λ a c le e. e } }

pub Kept-back : {n : ℕ} {h g k : Heap} → Grows h g → Kept n g k → Kept n h k
Kept-back grows kept = record {
  at_cell = λ a c le e. kept.at_cell a c le (grows.kept.at_cell a c (omega arith) e);
}

pub Fresh-Grows :
    {A : Type 0} {n : ℕ} {h g : Heap} {read : Reading A} {t : A}
    → Grows h g
    → Fresh n h read t
    → Fresh n g read t
Fresh-Grows grows fresh = record { sees = λ k kept. fresh.sees k (Kept-back grows kept) }

pub Fresh-pure : {A : Type 0} {n : ℕ} {h : Heap} (t : A) → Fresh n h (Reading.pure t) t
Fresh-pure t = record { sees = λ g kept. refl }

pub Fresh-bind :
    {A B : Type 0} {n : ℕ} {h : Heap} (m : Reading A) (f : A → Reading B) {a : A} {t : B}
    → Fresh n h m a
    → Fresh n h (f a) t
    → Fresh n h (Reading.◌>>=◌ m f) t
Fresh-bind m f first rest = record {
  sees = λ g kept. reading-some m f g (first.sees g kept) ∙ rest.sees g kept;
}

-- `m` runs from `h`, keeps what lies there, and returns what reads as `t` through addresses from
-- `n` on.
pub record Copied {A B : Type 0} (n : ℕ) (m : Allocating A) (read : A → Reading B) (t : B)
    (h : Heap) : Type 0 where
  pub value : A
  pub heap : Heap
  pub runs : m h ≡ some (value, heap)
  pub grows : Grows h heap
  pub sound : IsSound heap
  pub fresh : Fresh n heap (read value) t

-- The code of a deep copy, beside the reading of the original.
pub record IsCopy {A B : Type 0} (f : A → Allocating A) (read : A → Reading B) : Type 0 where
  pub stable : (x : A) → IsStable (read x)
  pub copied :
      (x : A) (t : B) (h : Heap) → IsSound h → read x h ≡ some t → Copied h.next (f x) read t h

pub record Follows {A B : Type 0} (n : ℕ) (m : Allocating A) (r : Reading B) (read : A → Reading B)
    (h : Heap) : Type 0 where
  pub at : (t : B) → r h ≡ some t → Copied n m read t h

pub IsCopy-Follows :
    {A B : Type 0} {f : A → Allocating A} {read : A → Reading B} {x : A} {n : ℕ} {h : Heap}
    → IsCopy f read
    → n ≤ h.next
    → IsSound h
    → Follows n (f x) (read x) read h
IsCopy-Follows {x = x} {h = h} is_copy le sound = record {
  at = λ t e.
      let part = is_copy.copied x t h sound e in
      record {
        value = part.value;
        heap = part.heap;
        runs = part.runs;
        grows = part.grows;
        sound = part.sound;
        fresh = record {
          sees = λ g kept.
              part.fresh.sees g (record { at_cell = λ a c p q. kept.at_cell a c (omega arith) q });
        };
      };
}

-- Running an action after another.
pub >>=-runs :
    {A B : Type 0} (m : Allocating A) (f : A → Allocating B) (h : Heap) {a : A} {g : Heap}
    → m h ≡ some (a, g)
    → (m >>= f) h ≡ f a g
unfolding ◌>>=◌
>>=-runs m f h e = rw (e, ◌>>=◌)

-- What a run that returned was made of.
pub runs_parts :
    {A B : Type 0} (m : Allocating A) (f : A → Allocating B) (h : Heap) {r : B × Heap}
    → (m >>= f) h ≡ some r
    → (a : A) × (g : Heap) × (m h ≡ some (a, g)) × (f a g ≡ some r)
unfolding ◌>>=◌
runs_parts {A} m f h {r} e = split (m h) refl
  where
    split :
        (o : Option (A × Heap))
        → m h ≡ o
        → (a : A) × (g : Heap) × (m h ≡ some (a, g)) × (f a g ≡ some r)
    split none p = cc (rw (p, ◌>>=◌) at e)
    split (some (a, g)) p = (a, g, p, rw (p, ◌>>=◌) at e)

module _ {C D : Type 0} (n : ℕ) (read : C → Reading D) (h : Heap) where
  pub Follows-pure :
      (x : C) (t : D)
      → IsSound h
      → Fresh n h (read x) t
      → Follows n (pure x) (Reading.pure t) read h
  Follows-pure x t sound fresh = record {
    at = λ u e. record {
      value = x;
      heap = h;
      runs = refl;
      grows = Grows-refl h;
      sound = sound;
      fresh = record { sees = λ g kept. fresh.sees g kept ∙ e };
    };
  }

  -- A part is copied where the original's is read; what follows may use that the copy is new.
  pub Follows-bind :
      {A B : Type 0} {f : A → Allocating A} {r : A → Reading B} (x : A) (k : A → Allocating C)
      (l : B → Reading D)
      → IsCopy f r
      → n ≤ h.next
      → IsSound h
      → ((b : B) → IsStable (l b))
      → ((a : A) (b : B) (g : Heap)
          → Grows h g
          → IsSound g
          → Fresh n g (r a) b
          → Follows n (k a) (l b) read g)
      → Follows n (f x >>= k) (Reading.◌>>=◌ (r x) l) read h
  Follows-bind {A} {B} {f} {r} x k l is_copy le sound stable rest = record {
    at = λ t e.
        let (b, first, second) = >>=-eq-some (r x) l h e in
        let part = (IsCopy-Follows is_copy le sound).at b first in
        let whole =
          (rest part.value b part.heap part.grows part.sound part.fresh).at t
            ((stable b).apply h part.heap t part.grows.kept second) in
        record {
          value = whole.value;
          heap = whole.heap;
          runs = >>=-runs (f x) k h part.runs ∙ whole.runs;
          grows = Grows-trans part.grows whole.grows;
          sound = whole.sound;
          fresh = whole.fresh;
        };
  }

  -- A part without references is copied, and the original's is not read.
  pub Follows-plain :
      {A : Type 0} {f : A → Allocating A} (x : A) (k : A → Allocating C) (r : Reading D)
      → IsCopy f Reading.pure
      → IsSound h
      → IsStable r
      → ((g : Heap) → Grows h g → IsSound g → Follows n (k x) r read g)
      → Follows n (f x >>= k) r read h
  Follows-plain {A} {f} x k r is_copy sound stable rest = record {
    at = λ t e.
        let part = is_copy.copied x x h sound refl in
        let same : part.value ≡ x =
          cc (part.fresh.sees part.heap (record { at_cell = λ a c p q. q })) in
        let whole =
          (rest part.heap part.grows part.sound).at t
            (stable.apply h part.heap t part.grows.kept e) in
        record {
          value = whole.value;
          heap = whole.heap;
          runs = >>=-runs (f x) k h part.runs ∙ ap (λ (v : A). k v part.heap) same ∙ whole.runs;
          grows = Grows-trans part.grows whole.grows;
          sound = whole.sound;
          fresh = whole.fresh;
        };
  }
