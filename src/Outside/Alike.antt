-- ===== src/Outside/Alike.antt =====
-- Code that differs in calls which the program does not see the effect of.
use namespace_cost_governor.Base.{
  ◌≡◌, refl, sym, ◌∙◌, inl, inr, Bool, true, false, Result-cases, Exec, pure, ap, world->>-pure,
  ◌>>=◌, ◌>>◌, if◌then◌else◌,
}
use namespace_cost_governor.Go.Float.{Float64}
use namespace_cost_governor.Outside.{Outside}

module _ {F : Float64} (O : Outside F) where
  -- From any world the two return the same and leave the same cluster.
  pub record Alike {A : Type 0} (m n : Exec O.World A) : Type 0 where
    pub result : (w : O.World) → (m w).0 ≡ (n w).0
    pub cluster : (w : O.World) → O.cluster (m w).1 ≡ O.cluster (n w).1

  pub Alike-refl : {A : Type 0} (m : Exec O.World A) → Alike m m
  Alike-refl m = record { result = λ w. refl; cluster = λ w. refl }

  pub Alike-same : {A : Type 0} {m n k : Exec O.World A} → Alike m k → Alike n k → Alike m n
  Alike-same p q = record {
    result = λ w. p.result w ∙ sym (q.result w);
    cluster = λ w. p.cluster w ∙ sym (q.cluster w);
  }

  pub Alike-bind :
      {A B : Type 0} (m : Exec O.World A) (f g : A → Exec O.World B)
      → ((a : A) → Alike (f a) (g a))
      → Alike (m >>= f) (m >>= g)
  unfolding ◌>>=◌
  Alike-bind m f g same = record {
    result = λ w. elim (Result-cases (m w).0) [
      | inl (a, e) ↦ rw e ((same a).result (m w).1)
      | inr (x, e) ↦ rw e refl
    ];
    cluster = λ w. elim (Result-cases (m w).0) [
      | inl (a, e) ↦ rw e ((same a).cluster (m w).1)
      | inr (x, e) ↦ rw e refl
    ];
  }

  pub Alike-if :
      {A : Type 0} (test : Bool) (m n k l : Exec O.World A)
      → Alike m n
      → Alike k l
      → Alike (if test then m else k) (if test then n else l)
  Alike-if true m n k l p q = p
  Alike-if false m n k l p q = q

  -- A last step that returns a value does not tell the two apart.
  pub Alike-finish :
      {A B : Type 0} (m n : Exec O.World A) (b : B) → Alike m n → Alike (m >> pure b) (n >> pure b)
  unfolding ◌>>=◌
  Alike-finish m n b p = record {
    result = λ w. elim (Result-cases (n w).0) [
      | inl (a, e) ↦ rw (p.result w, e) refl
      | inr (x, e) ↦ rw (p.result w, e) refl
    ];
    cluster = λ w.
        ap O.cluster (world->>-pure m b w) ∙ p.cluster w ∙ sym (ap O.cluster (world->>-pure n b w));
  }
