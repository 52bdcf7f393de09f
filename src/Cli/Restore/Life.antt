-- ===== src/Cli/Restore/Life.antt =====
-- The restore command moves every Deployment along the diagram of Actions/Life.
use mathlib.Core.Option.{some-injective}
use mathlib.Core.Path.{subst, subst₂}
use namespace_cost_governor.Base.{
  ℕ, String, some, true, List, [], ◌∷◌, ◌≡◌, ◌≢◌, sym, refl, ◌∙◌, inl, inr, Result-cases,
  Option-cases, Bool-cases, All, All-map, Exec, ◌>>=◌,
}
use namespace_cost_governor.Base.Int.{ℤ}
use namespace_cost_governor.Go.Float.{Float64}
use namespace_cost_governor.Go.Strconv.{parse_int32}
use namespace_cost_governor.Api.Kube.{Deployment, annotation}
use namespace_cost_governor.Outside.{Outside}
use namespace_cost_governor.Outside.Laws.{IsLawful, UniqueNames, deployment_at}
use namespace_cost_governor.Outside.Patch.{
  deployment_at-Reads, deployment_at-patch_other, patch-Patched, done, failed, lost,
}
use namespace_cost_governor.Actions.ScaleDown.{
  annotation_original_replicas, is_scaled_down_by_operator, unmarked, with_replicas,
}
use namespace_cost_governor.Actions.Life.{Steps, From, From-Steps, here, key_cases, recorded_count}
use namespace_cost_governor.Actions.Life.Restoring.{unmarks_restored, recorded_count-read}
use namespace_cost_governor.Cli.Validation.{validate_namespace}
use namespace_cost_governor.Cli.Restore.{
  Line, missing_annotation, invalid_annotation, line_text, line_of, summary_text, restore_one,
  patch_restored, skip, restore_loop, restore_listed, restore_cmd,
}
use namespace_cost_governor.Cli.Console.{Console, build_client, say}
use namespace_cost_governor.Cli.Console.Apart.{IsApart, build_client-Reads}

module _ {F : Float64} (O : Outside F) (L : IsLawful O) (S : Console O.World)
    (A : IsApart O S) where
  deployment_at-say :
      (t ns n : String) (w : O.World) → deployment_at O (S.print t w) ns n ≡ deployment_at O w ns n
  deployment_at-say t ns n w = deployment_at-Reads O (say S t) w ns n (A.say-reads t)

  -- The text of the line on a patch at `w`.
  abbrev patched_text : Deployment → ℤ → O.World → String
  patched_text d0 replicas w =
      line_text (λ e. S.error_text e)
        (line_of d0 replicas (O.patch_deployment d0 (unmarked (with_replicas replicas d0)) w).0)

  -- The rest of the loop runs where the patch and its line left the world.
  restore_one-world :
      (d0 : Deployment) (replicas : ℤ) (rest : Exec O.World ℕ) (w : O.World)
      → (restore_one O S d0 replicas rest w).1
        ≡ (rest (S.print (patched_text d0 replicas w) (patch_restored O S d0 replicas w).1)).1
  unfolding restore_one ◌>>=◌ patch_restored
  restore_one-world d0 replicas rest w =
      let after = S.print (patched_text d0 replicas w) (patch_restored O S d0 replicas w).1 in
      elim (Result-cases (rest after).0) [ inl (a, e) ↦ rw e refl | inr (x, e) ↦ rw e refl ]

  module _ (ns : String) where
    -- The Deployments of the list are as the server holds them.
    abbrev Stored : O.World → List Deployment → Type 0
    Stored w = All (λ d. deployment_at O w ns d.name ≡ some d)

    patch_restored-others :
        (n' ns' : String) (d0 : Deployment) (replicas : ℤ) (w : O.World)
        → deployment_at O w ns d0.name ≡ some d0
        → ((ns ≡ ns') × (d0.name ≡ n') → ⊥)
        → deployment_at O (patch_restored O S d0 replicas w).1 ns' n' ≡ deployment_at O w ns' n'
    unfolding patch_restored
    patch_restored-others n' ns' d0 replicas w at other =
        let key = L.stored_key w ns d0.name d0 at in
        deployment_at-patch_other O L w ns d0.name ns' n' d0 _ key.0 refl other

    kept-Stored :
        (d0 : Deployment) (replicas : ℤ) (ds : List Deployment) (w : O.World)
        → deployment_at O w ns d0.name ≡ some d0
        → All (λ e. d0.name ≢ e.name) ds
        → Stored w ds
        → Stored (patch_restored O S d0 replicas w).1 ds
    kept-Stored d0 replicas [] w at apart stored = tt
    kept-Stored d0 replicas (e ∷ ds) w at apart stored = (
      patch_restored-others e.name ns d0 replicas w at (λ h. apart.0 h.1) ∙ stored.0,
      kept-Stored d0 replicas ds w at apart.1 stored.1,
    )

    patch_restored-From_own :
        (d0 : Deployment) (replicas : ℤ) (w : O.World)
        → deployment_at O w ns d0.name ≡ some d0
        → is_scaled_down_by_operator d0 ≡ true
        → recorded_count d0 ≡ some replicas
        → From O ns d0.name d0 (patch_restored O S d0 replicas w).1
    unfolding patch_restored
    patch_restored-From_own d0 replicas w at mark recorded =
        elim (patch-Patched O L w ns d0.name d0 (unmarked (with_replicas replicas d0)) at) [
          | failed e r o ↦ (d0, o, here)
          | lost e d' r o same ↦ (d', o, unmarks_restored d0 d' replicas mark recorded same)
          | done d' r o same ↦ (d', o, unmarks_restored d0 d' replicas mark recorded same)
        ]

    module _ (ns' n' : String) where
      patch_restored-From :
          (d0 d : Deployment) (replicas : ℤ) (w : O.World)
          → deployment_at O w ns d0.name ≡ some d0
          → is_scaled_down_by_operator d0 ≡ true
          → recorded_count d0 ≡ some replicas
          → deployment_at O w ns' n' ≡ some d
          → From O ns' n' d (patch_restored O S d0 replicas w).1
      patch_restored-From d0 d replicas w at mark recorded at' =
          elim (key_cases ns d0.name ns' n') [
            | inr other ↦ (d, patch_restored-others n' ns' d0 replicas w at other ∙ at', here)
            | inl (same, same') ↦
                let own =
                  subst₂ (λ a b. From O a b d0 (patch_restored O S d0 replicas w).1) same same'
                    (patch_restored-From_own d0 replicas w at mark recorded) in
                let is_own =
                  some-injective _ _
                    (sym (subst₂ (λ a b. deployment_at O w a b ≡ some d0) same same' at) ∙ at') in
                subst (λ x. From O ns' n' x (patch_restored O S d0 replicas w).1) is_own own
          ]

      -- The rest of the loop, after the patch of the first Deployment.
      restore_one-From :
          (d0 d : Deployment) (ds : List Deployment) (replicas : ℤ) (rest : Exec O.World ℕ)
          (w : O.World)
          → UniqueNames (d0 ∷ ds)
          → Stored w (d0 ∷ ds)
          → is_scaled_down_by_operator d0 ≡ true
          → recorded_count d0 ≡ some replicas
          → deployment_at O w ns' n' ≡ some d
          → ((v : O.World) (e : Deployment)
              → Stored v ds
              → deployment_at O v ns' n' ≡ some e
              → From O ns' n' e (rest v).1)
          → From O ns' n' d (restore_one O S d0 replicas rest w).1
      restore_one-From d0 d ds replicas rest w unique stored mark recorded at go =
          let (e, at1, s) = patch_restored-From d0 d replicas w stored.0 mark recorded at in
          let text = patched_text d0 replicas w in
          let after = kept-Stored d0 replicas ds w stored.0 unique.0 stored.1 in
          subst (From O ns' n' d) (sym (restore_one-world d0 replicas rest w)) (
            From-Steps O ns' n' d e _ s (
              go _ e (All-map ds (λ x h. deployment_at-say text ns x.name _ ∙ h) after)
                (deployment_at-say text ns' n' _ ∙ at1)))

      skip-From :
          (l : Line) (d : Deployment) (ds : List Deployment) (rest : Exec O.World ℕ) (w : O.World)
          → Stored w ds
          → deployment_at O w ns' n' ≡ some d
          → ((v : O.World)
              → Stored v ds
              → deployment_at O v ns' n' ≡ some d
              → From O ns' n' d (rest v).1)
          → From O ns' n' d (skip O S l rest w).1
      unfolding skip ◌>>=◌
      skip-From l d ds rest w stored at go =
          let text = line_text (λ e. S.error_text e) l in
          go (S.print text w) (All-map ds (λ x h. deployment_at-say text ns x.name w ∙ h) stored)
            (deployment_at-say text ns' n' w ∙ at)

      restore_loop-From :
          (ds : List Deployment) (w : O.World) (d : Deployment)
          → UniqueNames ds
          → Stored w ds
          → deployment_at O w ns' n' ≡ some d
          → From O ns' n' d (restore_loop O S ds w).1
      unfolding restore_loop
      restore_loop-From [] w d unique stored at = (d, at, here)
      restore_loop-From (d0 ∷ ds) w d unique stored at =
          let rest = restore_loop-From ds w d unique.1 stored.1 at in
          let skips = λ (l : Line).
            skip-From l d ds (restore_loop O S ds) w stored.1 at
              (λ v stored' at'. restore_loop-From ds v d unique.1 stored' at') in
          elim (Bool-cases (is_scaled_down_by_operator d0)) [
            | inr bare ↦ rw bare rest
            | inl mark ↦ elim (Option-cases (annotation annotation_original_replicas d0)) [
              | inl nothing ↦ rw (mark, nothing) (skips (missing_annotation d0.name))
              | inr (text, recorded) ↦ elim (Option-cases (parse_int32 text)) [
                | inl unreadable ↦
                    rw (mark, recorded, unreadable) (skips (invalid_annotation d0.name))
                | inr (original, read) ↦
                    rw (mark, recorded, read)
                      (restore_one-From d0 d ds original (restore_loop O S ds) w unique stored mark
                        (recorded_count-read d0 text original recorded read) at
                        (λ v e stored' at'. restore_loop-From ds v e unique.1 stored' at'))
              ]
            ]
          ]

    -- The loop, and the line below it.
    restore_listed-From :
        (ns' n' : String) (w : O.World) (d : Deployment)
        → deployment_at O w ns' n' ≡ some d
        → From O ns' n' d (restore_listed O S ns w).1
    unfolding restore_listed ◌>>=◌
    restore_listed-From ns' n' w d at =
        let listing = O.list_deployments ns in
        let reads = L.list_deployments-reads ns in
        let kept = deployment_at-Reads O listing w ns' n' reads ∙ at in
        elim (Result-cases (listing w).0) [
          | inr (e, failing) ↦ rw failing (d, kept, here)
          | inl (ds, got) ↦
              let (e, at1, s) =
                restore_loop-From ns' n' ds (listing w).1 d (L.list_deployments-unique w ns ds got)
                  (All-map ds (λ e s. deployment_at-Reads O listing w ns e.name reads ∙ s)
                    (L.list_deployments_lem w ns ds got))
                  kept in
              elim (Result-cases (restore_loop O S ds (listing w).1).0) [
                | inr (x, failing) ↦ rw (got, failing) (e, at1, s)
                | inl (n, fine) ↦
                    rw (got, fine) (e, deployment_at-say (summary_text n) ns' n' _ ∙ at1, s)
              ]
        ]

-- A run of the restore command, whatever calls fail and whatever answers are lost, takes a
-- Deployment of the cluster along the diagram only: it is still there, and became what it is by the
-- diagram's steps. This asks that the terminal and the configuration of the client are apart from
-- the cluster.
pub restore_cmd-Steps :
    {F : Float64} (O : Outside F) (L : IsLawful O) (S : Console O.World) (A : IsApart O S)
    (arg ns n : String) (d : Deployment) (w : O.World)
    → deployment_at O w ns n ≡ some d
    → (e : Deployment) × (deployment_at O (restore_cmd O S arg w).1 ns n ≡ some e) × Steps d e
unfolding restore_cmd ◌>>=◌
restore_cmd-Steps O L S A arg ns n d w at = elim (Result-cases (validate_namespace O arg)) [
  | inr (e, invalid) ↦ rw invalid (d, at, here)
  | inl (namespace, valid) ↦
      let kept = deployment_at-Reads O (build_client S) w ns n (build_client-Reads O S A) ∙ at in
      elim (Result-cases (build_client S w).0) [
        | inr (e, failing) ↦ rw (valid, failing) (d, kept, here)
        | inl (u, built) ↦
            rw (valid, built)
              (restore_listed-From O L S A namespace ns n (build_client S w).1 d kept)
      ]
]
