-- ===== src/Base/Action.antt =====
-- Go's `(T, error)` results, and code that acts on the world outside and may fail.
-- A failing call leaves the world that its effects made, so the state stands beside the error too.
use Prim.Native.String.{String}
use mathlib.Core.Path.{◌≡◌, refl}
use mathlib.Core.Logic.{◌⊎◌, inl, inr}

-- `wrap prefix e` is `fmt.Errorf("prefix: %w", e)`.
pub data Error : Type 0 where
  not_found conflict : Error
  failure : String → Error
  wrap : String → Error → Error

pub data Result {ℓ} (A : Type ℓ) : Type ℓ where
  ok : A → Result A
  err : Error → Result A

abbrev pub IsErr {ℓ} : {A : Type ℓ} → Result A → Type 0
IsErr (ok a) = ⊥
IsErr (err e) = Unit

pub Result-cases {ℓ} :
    {A : Type ℓ} (r : Result A) → ((a : A) × (r ≡ ok a)) ⊎ ((e : Error) × (r ≡ err e))
Result-cases (ok a) = inl (a, refl)
Result-cases (err e) = inr (e, refl)

pub ok-injective {ℓ} : {A : Type ℓ} {a b : A} → ok a ≡ ok b → a ≡ b
ok-injective e = cc e

abbrev pub wrap_err {ℓ} : {A : Type ℓ} → String → Result A → Result A
wrap_err s (ok a) = ok a
wrap_err s (err e) = err (wrap s e)

abbrev pub Exec {ℓ} : Type ℓ → Type ℓ → Type ℓ
Exec W A = W → Result A × W

module _ {ℓ} {W A : Type ℓ} where
  abbrev pub pure : A → Exec W A
  pure a w = (ok a, w)

  abbrev pub throw : Error → Exec W A
  throw e w = (err e, w)

  abbrev pub of_result : Result A → Exec W A
  of_result r w = (r, w)

  -- `if err != nil { return fmt.Errorf("…: %w", err) }`
  abbrev pub wrapping : String → Exec W A → Exec W A
  wrapping s m w = (wrap_err s (m w).0, (m w).1)

  -- The result of `m` as a value, for callers that go on after an error.
  abbrev pub attempt : Exec W A → Exec W (Result A)
  attempt m w = (ok (m w).0, (m w).1)

module _ {ℓ} {W A B : Type ℓ} where
  abbrev pub continue : Result A → (A → Exec W B) → Exec W B
  continue (ok a) f w = f a w
  continue (err e) f w = (err e, w)

  infixl 10 ◌>>=◌ ◌>>◌
  unfoldable pub ◌>>=◌ : Exec W A → (A → Exec W B) → Exec W B
  ◌>>=◌ m f w = continue (m w).0 f (m w).1

  abbrev pub ◌>>◌ : Exec W A → Exec W B → Exec W B
  m >> n = m >>= λ _. n

  -- A last step that returns a value does not change the world.
  pub world->>-pure : (m : Exec W A) (b : B) (w : W) → ((m >> pure b) w).1 ≡ (m w).1
  unfolding ◌>>=◌
  world->>-pure m b w = elim (Result-cases (m w).0) [ inl (a, e) ↦ rw e | inr (x, e) ↦ rw e ]
