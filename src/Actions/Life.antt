-- ===== src/Actions/Life.antt =====
-- What may become of a Deployment: a transition diagram over the states of one object, and what it
-- takes to show that code moves an object along it.
pub mod Scaling
pub mod Restoring
pub mod Sound
pub mod Kept
pub mod Finishing
pub mod Race
use namespace_cost_governor.Base.{
  String, ◌==◌, Option, none, some, true, false, ◌≡◌, ◌⊎◌, inl, inr, eq_iff, arith, Bool-cases,
  Exec,
}
use namespace_cost_governor.Base.Int.{ℤ, pos}
use namespace_cost_governor.Base.Keeps.{Keeps}
use namespace_cost_governor.Go.Float.{Float64}
use namespace_cost_governor.Go.Strconv.{parse_int32, format_int}
use namespace_cost_governor.Api.Kube.{Deployment, annotation}
use namespace_cost_governor.Outside.{Outside}
use namespace_cost_governor.Outside.Frame.{Holds}
use namespace_cost_governor.Outside.Laws.{Same, deployment_at}
use namespace_cost_governor.Actions.ScaleDown.{
  annotation_original_replicas, is_scaled_down_by_operator, at_zero, original_replicas, marked,
  unmarked, with_replicas,
}

unfoldable pub read_count : Option String → Option ℤ
read_count none = none
read_count (some text) = parse_int32 text

-- The count that the operator's annotation records.
unfoldable pub recorded_count : Deployment → Option ℤ
unfolding read_count
recorded_count d = read_count (annotation annotation_original_replicas d)

-- One change of a Deployment `d` into `e`.
pub data Step (d e : Deployment) : Type 0 where
  -- a running Deployment gets the mark, with its count
  marks :
      (at : String)
      → is_scaled_down_by_operator d ≡ false
      → at_zero d ≡ false
      → Same e (marked at d)
      → Step d e
  -- a marked one goes to 0, when its count is on record
  scales :
      is_scaled_down_by_operator d ≡ true
      → annotation annotation_original_replicas d ≡ some (format_int (original_replicas d))
      → Same e (with_replicas (pos 0) d)
      → Step d e
  -- a marked one gets back the count on record
  returns :
      (original : ℤ)
      → is_scaled_down_by_operator d ≡ true
      → recorded_count d ≡ some original
      → Same e (with_replicas original d)
      → Step d e
  -- and loses the mark once it has that count
  unmarks :
      (original : ℤ)
      → is_scaled_down_by_operator d ≡ true
      → recorded_count d ≡ some original
      → d.replicas ≡ some original
      → Same e (unmarked d)
      → Step d e

pub data Steps (d : Deployment) : Deployment → Type 0 where
  here : Steps d d
  next : {e f : Deployment} → Steps d e → Step e f → Steps d f

pub Steps-trans : {d e f : Deployment} → Steps d e → Steps e f → Steps d f
Steps-trans s here = s
Steps-trans s (next t u) = next (Steps-trans s t) u

-- Two keys are the same, or they are not.
pub key_cases : (ns n ns' n' : String) → ((ns ≡ ns') × (n ≡ n')) ⊎ ((ns ≡ ns') × (n ≡ n') → ⊥)
key_cases ns n ns' n' = elim (eq_cases ns ns') [
  | inr apart ↦ inr (λ h. apart h.0)
  | inl same ↦ elim (eq_cases n n') [
    | inr apart ↦ inr (λ h. apart h.1)
    | inl same' ↦ inl (same, same')
  ]
]
  where
    eq_cases : (a b : String) → (a ≡ b) ⊎ (a ≡ b → ⊥)
    eq_cases a b = elim (Bool-cases (a == b)) [
      | inl e ↦ inl (ground (arith, eq_iff a b))
      | inr e ↦ inr (λ h. ground (arith, eq_iff a b))
    ]

module _ {F : Float64} (O : Outside F) (ns n : String) where
  -- At the key stands what `d` became by steps.
  abbrev pub From : Deployment → O.World → Type 0
  From d w = (e : Deployment) × (deployment_at O w ns n ≡ some e) × Steps d e

  pub From-Steps : (d e : Deployment) (w : O.World) → Steps d e → From e w → From d w
  From-Steps d e w s (f, at, t) = (f, at, Steps-trans s t)

  -- Code that takes every Deployment of the key along steps keeps `From`.
  pub Keeps-From :
      {A : Type 0} (m : Exec O.World A)
      → ((w : O.World) (e : Deployment) → deployment_at O w ns n ≡ some e → From e (m w).1)
      → (d : Deployment) → Keeps {A = A} (From d) m
  Keeps-From m moves d = record { at = λ w (e, at, s). From-Steps d e (m w).1 s (moves w e at) }

  -- Code that leaves the key as it is.
  pub Keeps-From-Holds :
      {A : Type 0} (m : Exec O.World A)
      → ((o : Option Deployment) → Keeps {A = A} (Holds O ns n o) m)
      → (d : Deployment) → Keeps (From d) m
  Keeps-From-Holds m k = Keeps-From m (λ w e at. (e, (k (some e)).at w at, here))
