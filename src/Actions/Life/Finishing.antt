-- ===== src/Actions/Life/Finishing.antt =====
-- A restore succeeds while the API server answers.
use mathlib.Core.Option.{some-injective}
use mathlib.Core.Path.{subst}
use namespace_cost_governor.Base.{
  String, some, none, ◌≡◌, refl, sym, ap, ◌∙◌, inl, inr, ok, Option-cases, Bool-cases, ◌>>=◌, IsErr,
  ok-injective,
}
use namespace_cost_governor.Base.Int.{ℤ, pos, ◌≤ℤ◌}
use namespace_cost_governor.Base.Keeps.{
  Keeps, Keeps-bind, Keeps-if, Keeps-pure, Keeps-throw, Keeps-wrapping,
}
use namespace_cost_governor.Go.Float.{Float64}
use namespace_cost_governor.Go.Strconv.{parse_int32}
use namespace_cost_governor.Api.Kube.{Deployment, annotation}
use namespace_cost_governor.Outside.{Outside}
use namespace_cost_governor.Outside.Healthy.{IsHealthy, Admitted}
use namespace_cost_governor.Outside.Laws.{IsLawful, deployment_at}
use namespace_cost_governor.Outside.Patch.{deployment_at-Reads, patch-Patched, done, failed, lost}
use namespace_cost_governor.Actions.ScaleDown.{
  annotation_original_replicas, restore, restore_to, restore_marked, unmarked, with_replicas,
  is_scaled_down_by_operator,
}
use namespace_cost_governor.Actions.ScaleDown.Answered.{restore-answered}
use namespace_cost_governor.Actions.Life.{recorded_count, read_count}
use namespace_cost_governor.Actions.Life.Sound.{IsSound, intended, intended-marked}

-- The text behind a recorded count.
recorded_text :
    (d : Deployment) (c : ℤ)
    → recorded_count d ≡ some c
    → (text : String) × (annotation annotation_original_replicas d ≡ some text)
      × (parse_int32 text ≡ some c)
unfolding recorded_count read_count
recorded_text d c known = elim (Option-cases (annotation annotation_original_replicas d)) [
  | inl nothing ↦ absurd (none_some (rw nothing at known))
  | inr (text, recorded) ↦ (text, recorded, rw recorded at known)
]
  where
    none_some : {A : Type 0} {a : A} → none ≡ some a → ⊥
    none_some e = cc e

-- A sound Deployment whose count, or the one on record while it is marked, is not negative.
pub record IsRestorable (d : Deployment) : Type 0 where
  pub sound : IsSound d
  pub not_negative : (c : ℤ) → intended d ≡ some c → pos 0 ≤ℤ c

admits : (c : ℤ) → pos 0 ≤ℤ c → (d : Deployment) → d.replicas ≡ some c → Admitted d
admits c fits d own n other = subst (λ x. pos 0 ≤ℤ x) (some-injective _ _ (sym own ∙ other)) fits

module _ {F : Float64} (O : Outside F) (L : IsLawful O) {Up : O.World → Type 0}
    (H : IsHealthy O Up) where
  -- The server stays up over a restore.
  pub restore-Up : (ns n : String) → Keeps Up (restore O ns n)
  unfolding restore restore_marked restore_to
  restore-Up ns n =
      Keeps-bind _ _ (Keeps-wrapping _ _ (H.get_deployment-Up ns n))
        (λ d. Keeps-if (is_scaled_down_by_operator d) _ _ (λ _. marked_Up d) (λ _. Keeps-pure _))
    where
      write_Up : (d : Deployment) (c : ℤ) → Keeps Up (restore_to O n c d)
      write_Up d c =
          Keeps-bind _ _ (Keeps-wrapping _ _ (H.patch_deployment-Up d _)) (λ e.
            Keeps-bind _ _ (Keeps-wrapping _ _ (H.patch_deployment-Up e _)) (λ f. Keeps-pure _))

      marked_Up : (d : Deployment) → Keeps Up (restore_marked O n d)
      marked_Up d = elim (Option-cases (annotation annotation_original_replicas d)) [
        | inl nothing ↦ rw (restore_marked, nothing) (Keeps-throw _)
        | inr (text, recorded) ↦ elim (Option-cases (parse_int32 text)) [
          | inl unreadable ↦ rw (restore_marked, recorded, unreadable) (Keeps-throw _)
          | inr (c, read) ↦ rw (restore_marked, recorded, read) (write_Up d c)
        ]
      ]

  -- A patch that is answered leaves its answer at the key, with the count of the patch.
  patched_at :
      (ns n : String) (base modified answer : Deployment) (v : O.World)
      → deployment_at O v ns n ≡ some base
      → (O.patch_deployment base modified v).0 ≡ ok answer
      → (deployment_at O (O.patch_deployment base modified v).1 ns n ≡ some answer)
        × (answer.replicas ≡ modified.replicas)
  patched_at ns n base modified answer v at fine =
      elim (patch-Patched O L v ns n base modified at) [
        | failed e r o ↦ absurd (subst IsErr fine (rw r tt))
        | lost e d' r o same ↦ absurd (subst IsErr fine (rw r tt))
        | done d' r o same ↦
            let own = ok-injective (sym r ∙ fine) in
            (o ∙ ap some own, ap (λ x. x.replicas) (sym own) ∙ same.replicas)
      ]

  -- While the server is up, a restore of a stored, restorable Deployment returns no error.
  pub restore-succeeds :
      (ns n : String) (w : O.World) (d : Deployment)
      → Up w
      → deployment_at O w ns n ≡ some d
      → IsRestorable d
      → (restore O ns n w).0 ≡ ok tt
  unfolding restore ◌>>=◌ unmarked
  restore-succeeds ns n w d up at restorable =
      let got = H.get_deployment w ns n d up at in
      elim (Bool-cases (is_scaled_down_by_operator d)) [
        | inr bare ↦ rw (got, bare) refl
        | inl mark ↦
            let w1 = (O.get_deployment ns n w).1 in
            let up1 = (H.get_deployment-Up ns n).at w up in
            let at1 =
              deployment_at-Reads O (O.get_deployment ns n) w ns n (L.get_deployment-reads ns n)
              ∙ at in
            let (c, known, fits) = restorable.sound.record_of mark in
            let (text, recorded, read) = recorded_text d c known in
            let counted = restorable.not_negative c (intended-marked d mark ∙ known) in
            let (d1, one) =
              H.patch_deployment w1 ns n d (with_replicas c d) up1 at1 refl refl
                (admits c counted (with_replicas c d) refl) in
            let up2 = (H.patch_deployment-Up d (with_replicas c d)).at w1 up1 in
            let (at2, count) = patched_at ns n d _ d1 w1 at1 one in
            let (d2, two) =
              H.patch_deployment _ ns n d1 (unmarked d1) up2 at2 refl refl
                (admits c counted (unmarked d1) count) in
            restore-answered O w ns n text c d d1 d2 mark recorded read got one two
      ]
