-- ===== src/Base/Keeps.antt =====
-- Invariants of actions: one rule for each way to build an action. Where a rule's premise depends
-- on what the action before it returned, `Ensures` carries the fact.
use namespace_cost_governor.Base.Action.{
  Error, Result, ok, err, Exec, pure, throw, wrapping, attempt, of_result, continue, ◌>>=◌,
}
use namespace_cost_governor.Base.Tests.{if◌then◌else◌}
use mathlib.Core.Path.{◌≡◌, refl, subst}
use mathlib.Core.Bool.{Bool, true, false}

-- `m` keeps `P`, whether it returns or fails.
pub record Keeps {ℓ} {W A : Type ℓ} (P : W → Type ℓ) (m : Exec W A) : Type ℓ where
  pub at : (w : W) → P w → P (m w).1

abbrev pub OnOk {ℓ} : {A : Type ℓ} → (A → Type ℓ) → Result A → Type ℓ
OnOk Q (ok a) = Q a
OnOk Q (err e) = Unit

-- From `P`, `m` keeps `P`, and what it returns satisfies `Q`.
pub record Ensures {ℓ} {W A : Type ℓ} (P : W → Type ℓ) (Q : A → Type ℓ) (m : Exec W A)
    : Type ℓ where
  pub at : (w : W) → P w → P (m w).1 × OnOk Q (m w).0

module _ {ℓ} {W A : Type ℓ} {P : W → Type ℓ} where
  pub Keeps-pure : (a : A) → Keeps P (pure a)
  Keeps-pure a = record { at = λ w h. h }

  pub Keeps-throw : (e : Error) → Keeps P (throw {A = A} e)
  Keeps-throw e = record { at = λ w h. h }

  pub Keeps-wrapping : (s : _) (m : Exec W A) → Keeps P m → Keeps P (wrapping s m)
  Keeps-wrapping s m k = record { at = k.at }

  pub Keeps-of_result : (r : Result A) → Keeps P (of_result r)
  Keeps-of_result r = record { at = λ w h. h }

  pub Keeps-attempt : (m : Exec W A) → Keeps P m → Keeps P (attempt m)
  Keeps-attempt m k = record { at = k.at }

  pub Keeps-if :
      (test : Bool) (on_true on_false : Exec W A)
      → (test ≡ true → Keeps P on_true)
      → (test ≡ false → Keeps P on_false)
      → Keeps P (if test then on_true else on_false)
  Keeps-if true on_true on_false k_yes k_no = k_yes refl
  Keeps-if false on_true on_false k_yes k_no = k_no refl

module _ {ℓ} {W A B : Type ℓ} {P : W → Type ℓ} where
  pub Keeps-continue :
      (r : Result A) (f : A → Exec W B)
      → ((a : A) → r ≡ ok a → Keeps P (f a))
      → Keeps P (continue r f)
  Keeps-continue (ok a) f kf = kf a refl
  Keeps-continue (err e) f kf = record { at = λ w h. h }

  pub Keeps-bind :
      (first : Exec W A) (rest : A → Exec W B)
      → Keeps P first
      → ((a : A) → Keeps P (rest a))
      → Keeps P (first >>= rest)
  unfolding ◌>>=◌
  Keeps-bind first rest k_first k_rest = record {
    at = λ w h. (Keeps-continue (first w).0 rest (λ a _. k_rest a)).at (first w).1 (k_first.at w h);
  }

  -- The rest may use what `m` ensures of its result.
  pub Keeps-bind-Ensures :
      (Q : A → Type ℓ) (m : Exec W A) (f : A → Exec W B)
      → Ensures P Q m
      → ((a : A) → Q a → Keeps P (f a))
      → Keeps P (m >>= f)
  unfolding ◌>>=◌
  Keeps-bind-Ensures Q m f em kf = record {
    at = λ w h.
        let known = em.at w h in
        (Keeps-continue (m w).0 f (λ a e. kf a (subst (OnOk Q) e known.1))).at (m w).1 known.0;
  }

-- The rules for what an action ensures of its result.
module _ {ℓ} {W A : Type ℓ} {P : W → Type ℓ} where
  pub Ensures-pure : (Q : A → Type ℓ) (a : A) → Q a → Ensures P Q (pure a)
  Ensures-pure Q a q = record { at = λ w h. (h, q) }

  pub Ensures-Keeps : (m : Exec W A) → Keeps P m → Ensures P (λ _. Unit) m
  Ensures-Keeps m k = record { at = λ w h. (k.at w h, ensured (m w).0) }
    where
      ensured : (r : Result A) → OnOk (λ _. Unit) r
      ensured (ok a) = tt
      ensured (err e) = tt

  pub Keeps-Ensures : (Q : A → Type ℓ) (m : Exec W A) → Ensures P Q m → Keeps P m
  Keeps-Ensures Q m e = record { at = λ w h. (e.at w h).0 }

  pub Ensures-attempt :
      (Q : A → Type ℓ) (m : Exec W A) → Ensures P Q m → Ensures P (OnOk Q) (attempt m)
  Ensures-attempt Q m e = record { at = e.at }

  pub Ensures-if :
      (Q : A → Type ℓ) (test : Bool) (on_true on_false : Exec W A)
      → (test ≡ true → Ensures P Q on_true)
      → (test ≡ false → Ensures P Q on_false)
      → Ensures P Q (if test then on_true else on_false)
  Ensures-if Q true on_true on_false e_yes e_no = e_yes refl
  Ensures-if Q false on_true on_false e_yes e_no = e_no refl

module _ {ℓ} {W A B : Type ℓ} {P : W → Type ℓ} where
  Ensures-continue :
      (Q : B → Type ℓ) (r : Result A) (f : A → Exec W B)
      → ((a : A) → r ≡ ok a → Ensures P Q (f a))
      → Ensures P Q (continue r f)
  Ensures-continue Q (ok a) f kf = kf a refl
  Ensures-continue Q (err e) f kf = record { at = λ w h. (h, tt) }

  pub Ensures-bind :
      (R : A → Type ℓ) (Q : B → Type ℓ) (m : Exec W A) (f : A → Exec W B)
      → Ensures P R m
      → ((a : A) → R a → Ensures P Q (f a))
      → Ensures P Q (m >>= f)
  unfolding ◌>>=◌
  Ensures-bind R Q m f em kf = record {
    at = λ w h.
        let known = em.at w h in
        (Ensures-continue Q (m w).0 f (λ a e. kf a (subst (OnOk R) e known.1))).at (m w).1 known.0;
  }

  -- The first action only has to keep `P`.
  pub Ensures-then :
      (Q : B → Type ℓ) (m : Exec W A) (f : A → Exec W B)
      → Keeps P m
      → ((a : A) → Ensures P Q (f a))
      → Ensures P Q (m >>= f)
  Ensures-then Q m f km kf = Ensures-bind (λ _. Unit) Q m f (Ensures-Keeps m km) (λ a _. kf a)

pub ruleset keeps_rules =
    (Keeps-pure, Keeps-throw, Keeps-of_result, Keeps-wrapping, Keeps-attempt, Keeps-if, Keeps-bind)
