-- ===== src/Idle/Names/Suffix.antt =====
-- The Deployment of a pod whose name has the two suffixes of a ReplicaSet.
use text.Mathlib.TextLemmas.{nil-append, cons-append}
use namespace_cost_governor.Base.{
  ◌-◌, String, ◌<>◌, List, [], ◌∷◌, ◌++◌, ◌≡◌, ◌≢◌, refl, ap, ◌∙◌, arith, length, length-append,
  take, leb, false,
}
use namespace_cost_governor.Go.Strings.{split}
use namespace_cost_governor.Go.Strings.Parts.{
  Lacks, split-ne-nil, split_at_sep, split_of_Lacks, join-split,
}
use namespace_cost_governor.Idle.Names.{pod_to_deployment}

module _ {ℓ} {A : Type ℓ} where
  take-length_append : (xs ys : List A) → take (length xs) (xs ++ ys) ≡ xs
  take-length_append [] ys = refl
  take-length_append (x ∷ xs) ys = ap (λ zs. x ∷ zs) (take-length_append xs ys)

  two_more : (xs : List A) (y z : A) → xs ≢ [] → leb (length (xs ++ (y ∷ z ∷ []))) 2 ≡ false
  two_more [] y z h = absurd (h refl)
  two_more (x ∷ xs) y z h = rw (length-append xs (y ∷ z ∷ [])) (ground arith)

  drop_two :
      (xs : List A) (y z : A) → take (length (xs ++ (y ∷ z ∷ [])) - 2) (xs ++ (y ∷ z ∷ [])) ≡ xs
  drop_two xs y z =
      ap (λ n. take n (xs ++ (y ∷ z ∷ []))) (rw (length-append xs (y ∷ z ∷ [])) (omega arith))
      ∙ take-length_append xs (y ∷ z ∷ [])

dash : (t : String) → "-" <> t ≡ String.◌∷◌ "-" t
dash t = cons-append "-" "" t ∙ ap (λ x. String.◌∷◌ "-" x) (nil-append t)

split_pod :
    (dep hash suffix : String)
    → Lacks b'-' hash
    → Lacks b'-' suffix
    → split (dep <> ("-" <> (hash <> ("-" <> suffix)))) b'-'
      ≡ split dep b'-' ++ (hash ∷ suffix ∷ [])
split_pod dep hash suffix h s =
    rw (dash (hash <> ("-" <> suffix)), dash suffix)
      (split_at_sep dep (hash <> String.◌∷◌ "-" suffix) "-"
        ∙ ap (λ ps. split dep b'-' ++ ps)
            (split_at_sep hash suffix "-"
              ∙ rw (split_of_Lacks hash b'-' h, split_of_Lacks suffix b'-' s) refl))

-- The name of a pod that is made of the name of a Deployment, a dash, a text without dashes, a
-- dash and a text without dashes gives the name of the Deployment, dashes in it and all.
pub pod_to_deployment-suffixes :
    (dep hash suffix : String)
    → Lacks b'-' hash
    → Lacks b'-' suffix
    → pod_to_deployment (dep <> ("-" <> (hash <> ("-" <> suffix)))) ≡ dep
unfolding pod_to_deployment
pod_to_deployment-suffixes dep hash suffix h s =
    rw
      (
        split_pod dep hash suffix h s,
        two_more (split dep b'-') hash suffix (split-ne-nil dep b'-'),
        drop_two (split dep b'-') hash suffix,
      )
      (join-split dep "-")
