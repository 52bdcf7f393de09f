-- ===== src/DeepCopy/Fields.antt =====
-- Structs: a copy of the fields that hold references, in the order of the reading, is a copy of the
-- whole.
use namespace_cost_governor.Base.{◌≡◌, arith}
use namespace_cost_governor.DeepCopy.Reading.{Reading, pure, ◌>>=◌}
use namespace_cost_governor.DeepCopy.Allocating
use namespace_cost_governor.DeepCopy.Allocating.{Allocating}
use namespace_cost_governor.DeepCopy.Stable.{IsStable-pure, IsStable-bind}
use namespace_cost_governor.DeepCopy.Copied.{
  Fresh-pure, Fresh-bind, Fresh-Grows, IsCopy, IsCopy-Follows, Follows-pure, Follows-bind,
  Follows-plain,
}
use namespace_cost_governor.DeepCopy.Parts.{Follows-IsCopy}

-- The field is copied, and the reading takes it as it stands.
pub plain_then-IsCopy :
    {X Y A : Type 0} {f : A → Allocating A} {read : X → Reading Y} (p : X → A)
    (rest : X → A → Allocating X)
    → IsCopy f pure
    → IsCopy (λ x. rest x (p x)) read
    → IsCopy (λ x. Allocating.◌>>=◌ (f (p x)) (rest x)) read
plain_then-IsCopy {read = read} p rest field whole = Follows-IsCopy _ read whole.stable λ x h sound.
    Follows-plain h.next read h (p x) (rest x) (read x) field sound (whole.stable x)
      λ g grows sound'. IsCopy-Follows whole (omega (arith, grows.next)) sound'

module _ {X Y A1 B1 : Type 0} {f1 : A1 → Allocating A1} {r1 : A1 → Reading B1} (p1 : X → A1)
    (build : X → A1 → X) (value : X → B1 → Y) where
  pub struct1-IsCopy :
      IsCopy f1 r1
      → ((x : X) (a1 : A1)
          → (r1 (p1 (build x a1)) >>= λ b1. pure (value (build x a1) b1))
            ≡ (r1 a1 >>= λ b1. pure (value x b1)))
      → IsCopy
          (λ x. (Allocating.◌>>=◌ (f1 (p1 x)) λ a1. Allocating.pure (build x a1)))
          (λ x. (r1 (p1 x) >>= λ b1. pure (value x b1)))
  struct1-IsCopy c1 same =
      Follows-IsCopy _ _ (λ x. IsStable-bind _ _ (c1.stable (p1 x)) λ _. IsStable-pure _)
        λ x h sound.
          Follows-bind h.next _ h (p1 x) _ _ c1 (omega arith) sound (λ _. IsStable-pure _)
            λ a1 b1 g1 w1 s1 e1.
              Follows-pure h.next _ g1 _ _ s1 (rw (same x a1) (Fresh-bind _ _ e1 (Fresh-pure _)))

module _ {X Y A1 A2 B1 B2 : Type 0} {f1 : A1 → Allocating A1} {r1 : A1 → Reading B1} (p1 : X → A1)
    {f2 : A2 → Allocating A2} {r2 : A2 → Reading B2} (p2 : X → A2) (build : X → A1 → A2 → X)
    (value : X → B1 → B2 → Y) where
  pub struct2-IsCopy :
      IsCopy f1 r1
      → IsCopy f2 r2
      → ((x : X) (a1 : A1) (a2 : A2)
          → (r1 (p1 (build x a1 a2)) >>= λ b1.
              (r2 (p2 (build x a1 a2)) >>= λ b2. pure (value (build x a1 a2) b1 b2)))
            ≡ (r1 a1 >>= λ b1. (r2 a2 >>= λ b2. pure (value x b1 b2))))
      → IsCopy
          (λ x.
            (Allocating.◌>>=◌
              (f1 (p1 x))
              λ a1. (Allocating.◌>>=◌ (f2 (p2 x)) λ a2. Allocating.pure (build x a1 a2))))
          (λ x. (r1 (p1 x) >>= λ b1. (r2 (p2 x) >>= λ b2. pure (value x b1 b2))))
  struct2-IsCopy c1 c2 same =
      Follows-IsCopy _ _
        (λ x.
          IsStable-bind _ _ (c1.stable (p1 x))
            λ _. IsStable-bind _ _ (c2.stable (p2 x)) λ _. IsStable-pure _)
        λ x h sound.
          Follows-bind h.next _ h (p1 x) _ _ c1 (omega arith) sound
            (λ _. IsStable-bind _ _ (c2.stable (p2 x)) λ _. IsStable-pure _)
            λ a1 b1 g1 w1 s1 e1.
              Follows-bind h.next _ g1 (p2 x) _ _ c2 (omega (arith, w1.next)) s1
                (λ _. IsStable-pure _)
                λ a2 b2 g2 w2 s2 e2. Follows-pure h.next _ g2 _ _ s2 (
                  rw (same x a1 a2)
                    (Fresh-bind _ _ (Fresh-Grows w2 e1) (Fresh-bind _ _ e2 (Fresh-pure _))))

module _ {X Y A1 A2 A3 B1 B2 B3 : Type 0} {f1 : A1 → Allocating A1} {r1 : A1 → Reading B1}
    (p1 : X → A1) {f2 : A2 → Allocating A2} {r2 : A2 → Reading B2} (p2 : X → A2)
    {f3 : A3 → Allocating A3} {r3 : A3 → Reading B3} (p3 : X → A3) (build : X → A1 → A2 → A3 → X)
    (value : X → B1 → B2 → B3 → Y) where
  pub struct3-IsCopy :
      IsCopy f1 r1
      → IsCopy f2 r2
      → IsCopy f3 r3
      → ((x : X) (a1 : A1) (a2 : A2) (a3 : A3)
          → (r1 (p1 (build x a1 a2 a3)) >>= λ b1.
              (r2 (p2 (build x a1 a2 a3)) >>= λ b2.
              (r3 (p3 (build x a1 a2 a3)) >>= λ b3. pure (value (build x a1 a2 a3) b1 b2 b3))))
            ≡ (r1 a1 >>= λ b1. (r2 a2 >>= λ b2. (r3 a3 >>= λ b3. pure (value x b1 b2 b3)))))
      → IsCopy
          (λ x.
            (Allocating.◌>>=◌ (f1 (p1 x)) λ a1.
              (Allocating.◌>>=◌
                (f2 (p2 x))
                λ a2. (Allocating.◌>>=◌ (f3 (p3 x)) λ a3. Allocating.pure (build x a1 a2 a3)))))
          (λ x.
            (r1 (p1 x) >>= λ b1.
            (r2 (p2 x) >>= λ b2. (r3 (p3 x) >>= λ b3. pure (value x b1 b2 b3)))))
  struct3-IsCopy c1 c2 c3 same =
      Follows-IsCopy _ _
        (λ x. IsStable-bind _ _ (c1.stable (p1 x)) λ _.
          IsStable-bind _ _ (c2.stable (p2 x))
            λ _. IsStable-bind _ _ (c3.stable (p3 x)) λ _. IsStable-pure _)
        λ x h sound.
          Follows-bind h.next _ h (p1 x) _ _ c1 (omega arith) sound
            (λ _.
              IsStable-bind _ _ (c2.stable (p2 x))
                λ _. IsStable-bind _ _ (c3.stable (p3 x)) λ _. IsStable-pure _)
            λ a1 b1 g1 w1 s1 e1.
              Follows-bind h.next _ g1 (p2 x) _ _ c2 (omega (arith, w1.next)) s1
                (λ _. IsStable-bind _ _ (c3.stable (p3 x)) λ _. IsStable-pure _)
                λ a2 b2 g2 w2 s2 e2.
                  Follows-bind h.next _ g2 (p3 x) _ _ c3 (omega (arith, w1.next, w2.next)) s2
                    (λ _. IsStable-pure _)
                    λ a3 b3 g3 w3 s3 e3. Follows-pure h.next _ g3 _ _ s3 (
                      rw (same x a1 a2 a3) (
                        Fresh-bind _ _ (Fresh-Grows w3 (Fresh-Grows w2 e1))
                          (Fresh-bind _ _ (Fresh-Grows w3 e2) (Fresh-bind _ _ e3 (Fresh-pure _)))))

module _ {X Y A1 A2 A3 A4 B1 B2 B3 B4 : Type 0} {f1 : A1 → Allocating A1} {r1 : A1 → Reading B1}
    (p1 : X → A1) {f2 : A2 → Allocating A2} {r2 : A2 → Reading B2} (p2 : X → A2)
    {f3 : A3 → Allocating A3} {r3 : A3 → Reading B3} (p3 : X → A3) {f4 : A4 → Allocating A4}
    {r4 : A4 → Reading B4} (p4 : X → A4) (build : X → A1 → A2 → A3 → A4 → X)
    (value : X → B1 → B2 → B3 → B4 → Y) where
  pub struct4-IsCopy :
      IsCopy f1 r1
      → IsCopy f2 r2
      → IsCopy f3 r3
      → IsCopy f4 r4
      → ((x : X) (a1 : A1) (a2 : A2) (a3 : A3) (a4 : A4)
          → (r1 (p1 (build x a1 a2 a3 a4)) >>= λ b1.
              (r2 (p2 (build x a1 a2 a3 a4)) >>= λ b2.
              (r3 (p3 (build x a1 a2 a3 a4)) >>= λ b3.
              (r4 (p4 (build x a1 a2 a3 a4)) >>= λ b4.
              pure (value (build x a1 a2 a3 a4) b1 b2 b3 b4)))))
            ≡ (r1 a1 >>= λ b1.
                (r2 a2 >>= λ b2. (r3 a3 >>= λ b3. (r4 a4 >>= λ b4. pure (value x b1 b2 b3 b4))))))
      → IsCopy
          (λ x.
            (Allocating.◌>>=◌ (f1 (p1 x)) λ a1.
              (Allocating.◌>>=◌ (f2 (p2 x)) λ a2.
                (Allocating.◌>>=◌ (f3 (p3 x)) λ a3.
                  (Allocating.◌>>=◌ (f4 (p4 x)) λ a4. Allocating.pure (build x a1 a2 a3 a4))))))
          (λ x.
            (r1 (p1 x) >>= λ b1.
            (r2 (p2 x) >>= λ b2.
            (r3 (p3 x) >>= λ b3. (r4 (p4 x) >>= λ b4. pure (value x b1 b2 b3 b4))))))
  struct4-IsCopy c1 c2 c3 c4 same =
      Follows-IsCopy _ _
        (λ x. IsStable-bind _ _ (c1.stable (p1 x)) λ _. IsStable-bind _ _ (c2.stable (p2 x)) λ _.
          IsStable-bind _ _ (c3.stable (p3 x))
            λ _. IsStable-bind _ _ (c4.stable (p4 x)) λ _. IsStable-pure _)
        λ x h sound.
          Follows-bind h.next _ h (p1 x) _ _ c1 (omega arith) sound
            (λ _. IsStable-bind _ _ (c2.stable (p2 x)) λ _.
              IsStable-bind _ _ (c3.stable (p3 x))
                λ _. IsStable-bind _ _ (c4.stable (p4 x)) λ _. IsStable-pure _)
            λ a1 b1 g1 w1 s1 e1.
              Follows-bind h.next _ g1 (p2 x) _ _ c2 (omega (arith, w1.next)) s1
                (λ _.
                  IsStable-bind _ _ (c3.stable (p3 x))
                    λ _. IsStable-bind _ _ (c4.stable (p4 x)) λ _. IsStable-pure _)
                λ a2 b2 g2 w2 s2 e2.
                  Follows-bind h.next _ g2 (p3 x) _ _ c3 (omega (arith, w1.next, w2.next)) s2
                    (λ _. IsStable-bind _ _ (c4.stable (p4 x)) λ _. IsStable-pure _)
                    λ a3 b3 g3 w3 s3 e3.
                      Follows-bind h.next _ g3 (p4 x) _ _ c4
                        (omega (arith, w1.next, w2.next, w3.next)) s3 (λ _. IsStable-pure _)
                        λ a4 b4 g4 w4 s4 e4. Follows-pure h.next _ g4 _ _ s4 (
                          rw (same x a1 a2 a3 a4) (
                            Fresh-bind _ _ (Fresh-Grows w4 (Fresh-Grows w3 (Fresh-Grows w2 e1))) (
                              Fresh-bind _ _ (Fresh-Grows w4 (Fresh-Grows w3 e2)) (
                                Fresh-bind _ _ (Fresh-Grows w4 e3)
                                  (Fresh-bind _ _ e4 (Fresh-pure _))))))
