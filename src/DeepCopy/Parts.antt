-- ===== src/DeepCopy/Parts.antt =====
-- The generated code's ways to copy a part, a plain value, an array and what stands behind a slice
-- or a pointer, make new copies.
use namespace_cost_governor.Base.{
  ℕ, ◌+◌, ◌≤◌, ◌≡◌, refl, ◌∙◌, none, some, List, [], ◌∷◌, arith, nat_beq, if◌then◌else◌,
}
use namespace_cost_governor.DeepCopy.Structs.{Address}
use namespace_cost_governor.DeepCopy.Heap.{Heap}
use namespace_cost_governor.DeepCopy.Cells.{Kind}
use namespace_cost_governor.DeepCopy.Reading
use namespace_cost_governor.DeepCopy.Reading.{Reading, at, read_each, read_ref}
use namespace_cost_governor.DeepCopy.Allocating.{
  Allocating, pure, load, new, write, copy_each, copy_ref,
}
use namespace_cost_governor.DeepCopy.Stable.{
  IsStable, IsStable-read_each, IsStable-read_ref, IsStable-pure, IsStable-bind, >>=-eq-some,
}
use namespace_cost_governor.DeepCopy.Copied.{
  IsSound, Grows-trans, Kept-back, Copied, IsCopy, Follows, Follows-pure, Follows-bind,
  Follows-plain, >>=-runs,
}

-- A struct's copy is new where the copying of it follows the reading of it.
pub Follows-IsCopy :
    {A B : Type 0} (f : A → Allocating A) (read : A → Reading B)
    → ((x : A) → IsStable (read x))
    → ((x : A) (h : Heap) → IsSound h → Follows h.next (f x) (read x) read h)
    → IsCopy f read
Follows-IsCopy f read stable follows = record {
  stable = stable;
  copied = λ x t h sound e. (follows x h sound).at t e;
}

pub pure-IsCopy : {A : Type 0} → IsCopy {A = A} pure Reading.pure
pure-IsCopy =
    Follows-IsCopy pure Reading.pure IsStable-pure
      λ x h sound. Follows-pure h.next Reading.pure h x x sound (record { sees = λ g kept. refl })

module _ {A : Type 0} (k : Kind A) where
  pub load-runs : (p : ℕ) (h : Heap) (x : A) → at k p h ≡ some x → load k p h ≡ some (x, h)
  unfolding load
  load-runs p h x e = rw (e, load)

  -- A new cell is the only change, and is found again wherever it is kept.
  pub new-Copied :
      (n : ℕ) (x : A) (h : Heap) → n ≤ h.next → IsSound h → Copied n (new k x) (at k) x h
  unfolding new write at
  new-Copied n x h le sound = record {
    value = h.next;
    heap = record {
      next = h.next + 1;
      cell = λ a. if nat_beq a h.next then some (k.wrap x) else h.cell a;
    };
    runs = refl;
    grows = record {
      next = omega arith;
      kept = record { at_cell = λ a c _ e. ground (arith, sound.unused a) };
    };
    sound = record { unused = λ a past. ground (arith, sound.unused a) };
    fresh = record {
      sees = λ g kept. rw (kept.at_cell h.next (k.wrap x) le (ground arith), at) (k.unwrap-wrap x);
    };
  }

module _ {A B : Type 0} {f : A → Allocating A} {read : A → Reading B} (c : IsCopy f read) where
  copy_each-Follows :
      (n : ℕ) (xs : List A) (h : Heap)
      → n ≤ h.next
      → IsSound h
      → Follows n (copy_each f xs) (read_each read xs) (read_each read) h
  unfolding copy_each read_each Reading.◌>>=◌
  copy_each-Follows n [] h le sound =
      Follows-pure n (read_each read) h [] [] sound (record { sees = λ g kept. refl })
  copy_each-Follows n (x ∷ xs) h le sound =
      Follows-bind n (read_each read) h x _ _ c le sound
        (λ y. IsStable-bind _ _ (IsStable-read_each read c.stable xs) λ ys. IsStable-pure _)
        λ x' y g grows sound' fresh. record {
          at = λ t e.
              let (ys, first, last) =
                >>=-eq-some (read_each read xs) (λ ys. Reading.pure (y ∷ ys)) g e in
              let rest =
                (copy_each-Follows n xs g (omega (arith, grows.next)) sound').at ys first in
              record {
                value = x' ∷ rest.value;
                heap = rest.heap;
                runs = >>=-runs (copy_each f xs) (λ ys. pure (x' ∷ ys)) g rest.runs;
                grows = rest.grows;
                sound = rest.sound;
                fresh = record {
                  sees = λ k kept.
                      let first' = fresh.sees k (Kept-back rest.grows kept) in
                      let rest' = rest.fresh.sees k kept in ground (arith, first', rest', last);
                };
              };
        }

  pub copy_each-IsCopy : IsCopy (copy_each f) (read_each read)
  copy_each-IsCopy =
      Follows-IsCopy _ _ (IsStable-read_each read c.stable)
        λ xs h sound. copy_each-Follows h.next xs h (omega arith) sound

  copy_ref-Follows :
      (k : Kind A) (r : Address A) (h : Heap)
      → IsSound h
      → Follows h.next (copy_ref f k r) (read_ref read k r) (read_ref read k) h
  unfolding copy_ref read_ref Reading.◌>>=◌
  copy_ref-Follows k none h sound =
      Follows-pure h.next (read_ref read k) h none none sound (record { sees = λ g kept. refl })
  copy_ref-Follows k (some p) h sound = record {
    at = λ t e.
        let (x, found, rest) =
          >>=-eq-some (at k p) (λ x. Reading.◌>>=◌ (read x) λ y. Reading.pure (some y)) h e in
        let (y, reads, last) = >>=-eq-some (read x) (λ y. Reading.pure (some y)) h rest in
        let part = c.copied x y h sound reads in
        let cell = new-Copied k h.next part.value part.heap part.grows.next part.sound in
        record {
          value = some cell.value;
          heap = cell.heap;
          runs =
              >>=-runs (load k p) _ h (load-runs k p h x found)
              ∙ >>=-runs (f x) _ h part.runs
              ∙ >>=-runs (new k part.value) (λ q. pure (some q)) part.heap cell.runs;
          grows = Grows-trans part.grows cell.grows;
          sound = cell.sound;
          fresh = record {
            sees = λ g kept.
                let found' = cell.fresh.sees g kept in
                let reads' = part.fresh.sees g (Kept-back cell.grows kept) in
                ground (arith, found', reads', last);
          };
        };
  }

  pub copy_ref-IsCopy : (k : Kind A) → IsCopy (copy_ref f k) (read_ref read k)
  copy_ref-IsCopy k =
      Follows-IsCopy _ _ (IsStable-read_ref read c.stable k)
        λ r h sound. copy_ref-Follows k r h sound

module _ {A : Type 0} {f : A → Allocating A} (c : IsCopy f Reading.pure) where
  copy_each_plain-Follows :
      (n : ℕ) (xs : List A) (h : Heap)
      → n ≤ h.next
      → IsSound h
      → Follows n (copy_each f xs) (Reading.pure xs) Reading.pure h
  unfolding copy_each
  copy_each_plain-Follows n [] h le sound =
      Follows-pure n Reading.pure h [] [] sound (record { sees = λ g kept. refl })
  copy_each_plain-Follows n (x ∷ xs) h le sound =
      Follows-plain n Reading.pure h x _ _ c sound (IsStable-pure _) λ g grows sound'. record {
        at = λ t e.
            let rest =
              (copy_each_plain-Follows n xs g (omega (arith, grows.next)) sound').at xs refl in
            record {
              value = x ∷ rest.value;
              heap = rest.heap;
              runs = >>=-runs (copy_each f xs) (λ ys. pure (x ∷ ys)) g rest.runs;
              grows = rest.grows;
              sound = rest.sound;
              fresh = record { sees = λ k kept. let rest' = rest.fresh.sees k kept in cc };
            };
      }

  -- An array of values without references reads as it stands.
  pub copy_each_plain-IsCopy : IsCopy (copy_each f) Reading.pure
  copy_each_plain-IsCopy =
      Follows-IsCopy _ _ IsStable-pure
        λ xs h sound. copy_each_plain-Follows h.next xs h (omega arith) sound
