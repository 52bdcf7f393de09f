-- ===== src/Cli/Restore/Spared.antt =====
-- What the restore command leaves alone.
use mathlib.Core.Option.{some-injective}
use mathlib.Core.Path.{subst₂}
use namespace_cost_governor.Base.{
  ℕ, wrapping, String, some, false, List, [], ◌∷◌, ◌≡◌, sym, ap, refl, ◌∙◌, inl, inr, Result-cases,
  Option-cases, ok, Exec, All, All-map, Bool-cases, ◌>>=◌,
}
use namespace_cost_governor.Base.Int.{ℤ}
use namespace_cost_governor.Base.Keeps.{
  Keeps, Keeps-bind, Keeps-pure, Keeps-attempt, Keeps-wrapping, Keeps-of_result,
}
use namespace_cost_governor.Go.Float.{Float64}
use namespace_cost_governor.Go.Strconv.{parse_int32}
use namespace_cost_governor.Api.Kube.{Deployment, annotation}
use namespace_cost_governor.Outside.{Outside}
use namespace_cost_governor.Outside.Frame.{Holds, Keeps-Reads, list_deployments-Holds}
use namespace_cost_governor.Outside.Laws.{IsLawful, deployment_at}
use namespace_cost_governor.Outside.Patch.{deployment_at-patch_other}
use namespace_cost_governor.Actions.ScaleDown.{
  is_scaled_down_by_operator, annotation_original_replicas, with_replicas, unmarked,
}
use namespace_cost_governor.Cli.Validation.{validate_namespace}
use namespace_cost_governor.Cli.Console.{Console, build_client, say}
use namespace_cost_governor.Cli.Console.Apart.{IsApart, build_client-Reads}
use namespace_cost_governor.Cli.Restore.{
  Line, missing_annotation, invalid_annotation, summary_text, restore_listed, say_line, line_of,
  counted, restore_one, patch_restored, skip, restore_loop, restore_cmd,
}

module _ {F : Float64} (O : Outside F) (L : IsLawful O) (S : Console O.World) (A : IsApart O S)
    (ns' n' : String) (d : Deployment) (bare : is_scaled_down_by_operator d ≡ false) where
  abbrev Here : O.World → Type 0
  Here = Holds O ns' n' (some d)

  abbrev Apart : Deployment → Type 0
  Apart d0 = (d0.namespace ≡ ns') × (d0.name ≡ n') → ⊥

  -- A listed Deployment of the key is the one that the server holds.
  abbrev Fits : Deployment → Type 0
  Fits d0 = (d0.namespace ≡ ns') × (d0.name ≡ n') → d0 ≡ d

  Fits-All :
      (w : O.World) (ns : String) (ds : List Deployment)
      → deployment_at O w ns' n' ≡ some d
      → (O.list_deployments ns w).0 ≡ ok ds
      → All Fits ds
  Fits-All w ns ds h got =
      All-map ds
        (λ d0 stored key.
          let own = L.stored_key w ns d0.name d0 stored in
          some-injective _ _ (
            sym (subst₂ (λ a b. deployment_at O w a b ≡ some d0) (sym own.0 ∙ key.0) key.1 stored)
            ∙ h))
        (L.list_deployments_lem w ns ds got)

  say_line-Holds : (l : Line) → Keeps Here (say_line O S l)
  say_line-Holds l = Keeps-Reads O ns' n' (some d) _ (A.say-reads _)

  restore_one-Holds :
      (d0 : Deployment) (replicas : ℤ) (rest : Exec O.World ℕ)
      → Apart d0
      → Keeps Here rest
      → Keeps Here (restore_one O S d0 replicas rest)
  unfolding restore_one patch_restored
  restore_one-Holds d0 replicas rest apart k =
      Keeps-bind _ _
        (Keeps-attempt (O.patch_deployment d0 (unmarked (with_replicas replicas d0))) (record {
          at = λ w h.
              deployment_at-patch_other O L w d0.namespace d0.name ns' n' d0 _ refl refl apart ∙ h;
        }))
        (λ patched.
          Keeps-bind _ _ (say_line-Holds (line_of d0 replicas patched))
            (λ _. Keeps-bind _ _ k (λ n. Keeps-pure (counted patched n))))

  skip-Holds : (l : Line) (rest : Exec O.World ℕ) → Keeps Here rest → Keeps Here (skip O S l rest)
  unfolding skip
  skip-Holds l rest k = Keeps-bind _ _ (say_line-Holds l) (λ _. k)

  restore_loop-Holds : (ds : List Deployment) → All Fits ds → Keeps Here (restore_loop O S ds)
  unfolding restore_loop
  restore_loop-Holds [] fits = Keeps-pure _
  restore_loop-Holds (d0 ∷ ds) fits =
      let rest = restore_loop-Holds ds fits.1 in
      elim (Bool-cases (is_scaled_down_by_operator d0)) [
        | inr out ↦ rw out rest
        | inl mark ↦
            let apart : Apart d0 =
              λ key. let same = fits.0 key in cc (ap is_scaled_down_by_operator same, mark, bare) in
            elim (Option-cases (annotation annotation_original_replicas d0)) [
              | inl nothing ↦ rw (mark, nothing) (skip-Holds (missing_annotation d0.name) _ rest)
              | inr (text, recorded) ↦ elim (Option-cases (parse_int32 text)) [
                | inl unreadable ↦
                    rw (mark, recorded, unreadable) (skip-Holds (invalid_annotation d0.name) _ rest)
                | inr (original, read) ↦
                    rw (mark, recorded, read) (restore_one-Holds d0 original _ apart rest)
              ]
            ]
      ]

  restore_listed-Holds : (ns : String) → Keeps Here (restore_listed O S ns)
  unfolding restore_listed ◌>>=◌
  restore_listed-Holds ns = record {
    at = λ w h.
        let listing = O.list_deployments ns in
        let kept = (list_deployments-Holds O ns' n' (some d) L ns).at w h in
        elim (Result-cases (listing w).0) [
          | inr (e, failing) ↦ rw failing kept
          | inl (ds, got) ↦
              let looped = (restore_loop-Holds ds (Fits-All w ns ds h got)).at (listing w).1 kept in
              elim (Result-cases (restore_loop O S ds (listing w).1).0) [
                | inr (e, failing) ↦ rw (got, failing) looped
                | inl (n, fine) ↦
                    rw (got, fine)
                      ((Keeps-Reads O ns' n' (some d) (say S (summary_text n))
                          (A.say-reads (summary_text n))).at
                        _ looped)
              ]
        ];
  }

  -- A Deployment that does not carry the operator's mark is left as it is by a restore of any
  -- namespace, whatever calls fail. This asks that the terminal and the configuration of the client
  -- are apart from the cluster.
  pub restore_cmd-Holds_bare : (arg : String) → Keeps Here (restore_cmd O S arg)
  unfolding restore_cmd
  restore_cmd-Holds_bare arg = Keeps-bind _ _ (Keeps-of_result (validate_namespace O arg)) (λ ns.
      Keeps-bind (wrapping "building client: " (build_client S)) _
        (Keeps-wrapping "building client: " (build_client S)
          (Keeps-Reads O ns' n' (some d) (build_client S) (build_client-Reads O S A)))
        (λ u. restore_listed-Holds ns))
