-- ===== src/Cli/Console/Shown.antt =====
-- The texts that reach the terminal, in order. A text that is handed to a table is shown when the
-- table is flushed.
use namespace_cost_governor.Base.{
  ℕ, suc, ltb, true, arith, String, List, [], ◌∷◌, ◌++◌, map, ◌≡◌, refl, sym, ap, ◌∙◌, Result, ok,
  err, IsErr, Exec, pure, of_result, wrapping, ◌>>=◌, Result-cases, ok-injective, inl, inr,
  wrap_err,
}
use mathlib.Core.Path.{subst}
use namespace_cost_governor.Cli.Console.{
  Console, say, load_config, or_kubeconfig, build_client, write_rows, table,
}

-- A terminal that takes what it is given, whose texts only the calls on it change.
pub record IsTerminal {W : Type 0} (S : Console W) : Type 0 where
  pub shown : W → List String
  -- The texts before the writer was made, and those that it was given.
  pub with_pending : S.Writer → W → List String
  pub shown-print : (s : String) (w : W) → shown (S.print s w) ≡ shown w ++ (s ∷ [])
  pub pending-new_writer : (w : W) → with_pending S.new_writer w ≡ shown w
  pub pending-fprint :
      (t t1 : S.Writer) (s : String) (w : W)
      → (S.fprint t s w).0 ≡ ok t1
      → with_pending t1 (S.fprint t s w).1 ≡ with_pending t w ++ (s ∷ [])
  pub shown-flush :
      (t : S.Writer) (w : W) → (S.flush t w).0 ≡ ok tt → shown (S.flush t w).1 ≡ with_pending t w
  pub shown-in_cluster_config : (w : W) → shown (S.in_cluster_config w).1 ≡ shown w
  pub shown-kubeconfig : (w : W) → shown (S.kubeconfig w).1 ≡ shown w

-- Appending is associative.
pub append_assoc : (xs ys zs : List String) → (xs ++ ys) ++ zs ≡ xs ++ (ys ++ zs)
append_assoc [] ys zs = refl
append_assoc (x ∷ xs) ys zs = ap (λ l. x ∷ l) (append_assoc xs ys zs)

-- A list with an element has a length above 0.
pub nonempty : (n : ℕ) → ltb 0 (suc n) ≡ true
nonempty n = ground arith

pub append_empty : (xs : List String) → xs ++ [] ≡ xs
append_empty [] = refl
append_empty (x ∷ xs) = ap (λ l. x ∷ l) (append_empty xs)

module _ {W : Type 0} {S : Console W} (T : IsTerminal S) where
  -- When `m` returns no error, the terminal shows `texts` after what it showed.
  pub record Emits {A : Type 0} (texts : List String) (m : Exec W A) : Type 0 where
    pub at : (w : W) (a : A) → (m w).0 ≡ ok a → T.shown (m w).1 ≡ T.shown w ++ texts

  module _ {A : Type 0} where
    pub Emits-quiet : (m : Exec W A) → ((w : W) → T.shown (m w).1 ≡ T.shown w) → Emits [] m
    Emits-quiet m quiet = record { at = λ w a fine. quiet w ∙ sym (append_empty (T.shown w)) }

    pub Emits-pure : (a : A) → Emits [] (pure a)
    Emits-pure a = Emits-quiet (pure a) (λ w. refl)

    pub Emits-of_result : (r : Result A) → Emits [] (of_result r)
    Emits-of_result r = Emits-quiet (of_result r) (λ w. refl)

    wrapped_ok : (fault : String) (r : Result A) (a : A) → wrap_err fault r ≡ ok a → r ≡ ok a
    wrapped_ok fault (ok b) a fine = fine
    wrapped_ok fault (err e) a fine = absurd (subst IsErr fine tt)

    pub Emits-wrapping :
        (fault : String) (texts : List String) (m : Exec W A)
        → Emits texts m
        → Emits texts (wrapping fault m)
    Emits-wrapping fault texts m k = record {
      at = λ w a fine. k.at w a (wrapped_ok fault (m w).0 a fine);
    }

  module _ {A B : Type 0} where
    -- What a sequence shows, and what its first part returned.
    pub Emits-bind_returned :
        (xs : List String) (ys : A → List String) (m : Exec W A) (f : A → Exec W B)
        → Emits xs m
        → ((a : A) → Emits (ys a) (f a))
        → (w : W) (a : A) → (m w).0 ≡ ok a
        → (b : B) → ((m >>= f) w).0 ≡ ok b
        → T.shown ((m >>= f) w).1 ≡ T.shown w ++ (xs ++ ys a)
    unfolding ◌>>=◌
    Emits-bind_returned xs ys m f k kf w a got b fine = rw got (
        (kf a).at (m w).1 b (rw got at fine)
        ∙ ap (λ l. l ++ ys a) (k.at w a got)
        ∙ append_assoc (T.shown w) xs (ys a))

    pub Emits-bind :
        (xs ys : List String) (m : Exec W A) (f : A → Exec W B)
        → Emits xs m
        → ((a : A) → Emits ys (f a))
        → Emits (xs ++ ys) (m >>= f)
    unfolding ◌>>=◌
    Emits-bind xs ys m f k kf = record {
      at = λ w b fine. elim (Result-cases (m w).0) [
        | inl (a, got) ↦ Emits-bind_returned xs (λ _. ys) m f k kf w a got b fine
        | inr (e, failing) ↦ absurd (subst IsErr fine (rw failing tt))
      ];
    }

  pub Emits-say : (s : String) → Emits (s ∷ []) (say S s)
  Emits-say s = record { at = λ w a fine. T.shown-print s w }

  write_rows-pending :
      {A : Type 0} (fault : String) (row : A → String) (xs : List A) (t t1 : S.Writer) (w : W)
      → (write_rows S fault row xs t w).0 ≡ ok t1
      → T.with_pending t1 (write_rows S fault row xs t w).1 ≡ T.with_pending t w ++ map row xs
  unfolding write_rows ◌>>=◌
  write_rows-pending fault row [] t t1 w fine =
      ap (λ u. T.with_pending u w) (sym (ok-injective fine))
      ∙ sym (append_empty (T.with_pending t w))
  write_rows-pending fault row (x ∷ xs) t t1 w fine = elim (Result-cases (S.fprint t (row x) w).0) [
    | inr (e, failing) ↦ absurd (subst IsErr fine (rw failing tt))
    | inl (u, got) ↦ rw got (
        write_rows-pending fault row xs u t1 (S.fprint t (row x) w).1 (rw got at fine)
        ∙ ap (λ l. l ++ map row xs) (T.pending-fprint t u (row x) w got)
        ∙ append_assoc (T.with_pending t w) (row x ∷ []) (map row xs))
  ]

  -- A table shows its head and one row for each element, in order.
  pub Emits-table :
      {A : Type 0} (head_fault head row_fault : String) (row : A → String) (xs : List A)
      (flush_fault : String)
      → Emits (head ∷ map row xs) (table S head_fault head row_fault row xs flush_fault)
  unfolding table ◌>>=◌
  Emits-table head_fault head row_fault row xs flush_fault = record {
    at = λ w a fine. elim (Result-cases (S.fprint S.new_writer head w).0) [
      | inr (e, failing) ↦ absurd (subst IsErr fine (rw failing tt))
      | inl (t, got) ↦
          let w1 = (S.fprint S.new_writer head w).1 in
          elim (Result-cases (write_rows S row_fault row xs t w1).0) [
            | inr (e, failing) ↦ absurd (subst IsErr fine (rw (got, failing) tt))
            | inl (u, got') ↦
                rw (got, got')
                  (T.shown-flush u _ (wrapped_ok flush_fault _ tt (rw (got, got') at fine))
                    ∙ write_rows-pending row_fault row xs t u w1 got'
                    ∙ ap (λ l. l ++ map row xs)
                        (T.pending-fprint S.new_writer t head w got
                          ∙ ap (λ l. l ++ (head ∷ [])) (T.pending-new_writer w))
                    ∙ append_assoc (T.shown w) (head ∷ []) (map row xs))
          ]
    ];
  }

  -- Building the client shows nothing.
  pub Emits-build_client : Emits [] (build_client S)
  unfolding build_client load_config or_kubeconfig
  Emits-build_client =
      Emits-bind [] [] _ _
        (Emits-bind [] [] _ _ (Emits-quiet _ T.shown-in_cluster_config) configured)
        (λ config. Emits-of_result (S.new_client config))
    where
      configured : (inside : Result S.Config) → Emits [] (or_kubeconfig S inside)
      configured (ok config) = Emits-pure config
      configured (err e) = Emits-quiet S.kubeconfig T.shown-kubeconfig
