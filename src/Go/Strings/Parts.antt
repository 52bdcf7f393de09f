-- ===== src/Go/Strings/Parts.antt =====
-- Splitting at a separator and joining again.
use Prim.Native.Char.{Char, code}
use text.Mathlib.TextLemmas.{nil-append, cons-append}
use text.Mathlib.TextEquality.{Char-path}
use namespace_cost_governor.Base.{
  sym, ℕ, String, ◌<>◌, List, [], ◌∷◌, ◌++◌, ◌≡◌, ◌≢◌, refl, nat_beq, arith, Bool-cases, inl, inr,
  ap, ◌∙◌,
}
use namespace_cost_governor.Go.Strings.{onto_first, split, join}

-- No byte of the text is the separator.
abbrev pub Lacks : ℕ → String → Type 0
Lacks sep String.[] = Unit
Lacks sep (String.◌∷◌ c s) = (code c ≢ sep) × Lacks sep s

onto_first-append :
    (c : Char) (ps qs : List String) → ps ≢ [] → onto_first c (ps ++ qs) ≡ onto_first c ps ++ qs
unfolding onto_first
onto_first-append c [] qs h = absurd (h refl)
onto_first-append c (p ∷ ps) qs h = refl

pub split-ne-nil : (s : String) (sep : ℕ) → split s sep ≢ []
unfolding split
split-ne-nil String.[] sep = ground arith
split-ne-nil (String.◌∷◌ c s) sep = ground (arith, split-ne-nil s sep)

-- Splitting at a separator that stands in the text.
pub split_at_sep :
    (s t : String) (d : Char)
    → split (s <> (String.◌∷◌ d t)) (code d) ≡ split s (code d) ++ split t (code d)
unfolding split
split_at_sep String.[] t d = rw nil-append (ground arith)
split_at_sep (String.◌∷◌ c s) t d =
    rw (cons-append, split)
      (rw (split_at_sep s t d) (
        ground (
          arith,
          onto_first-append c (split s (code d)) (split t (code d)) (split-ne-nil s (code d)),
        )))

pub split_of_Lacks : (s : String) (sep : ℕ) → Lacks sep s → split s sep ≡ s ∷ []
unfolding split
split_of_Lacks String.[] sep h = refl
split_of_Lacks (String.◌∷◌ c s) sep h = ground (arith, split_of_Lacks s sep h.1)

join-onto_first :
    (c : Char) (ps : List String) (sep : String)
    → ps ≢ []
    → join (onto_first c ps) sep ≡ String.◌∷◌ c (join ps sep)
unfolding join onto_first
join-onto_first c [] sep h = absurd (h refl)
join-onto_first c (p ∷ []) sep h = refl
join-onto_first c (p ∷ q ∷ ps) sep h = rw cons-append

join-cons : (ps : List String) (sep : String) → ps ≢ [] → join ("" ∷ ps) sep ≡ sep <> join ps sep
unfolding join
join-cons [] sep h = absurd (h refl)
join-cons (p ∷ ps) sep h = rw nil-append

-- Joining the parts of a split with the separator gives the text back.
pub join-split : (s : String) (d : Char) → join (split s (code d)) (String.◌∷◌ d "") ≡ s
unfolding split
join-split String.[] d = unfold join in refl
join-split (String.◌∷◌ c s) d = elim (Bool-cases (nat_beq (code c) (code d))) [
  | inl same ↦ rw same (
      join-cons (split s (code d)) (String.◌∷◌ d "") (split-ne-nil s (code d))
      ∙ rw (cons-append, nil-append, join-split s d)
          (ap (λ x. String.◌∷◌ x s) (sym (Char-path c d (ground arith)))))
  | inr other ↦ rw other (
      join-onto_first c (split s (code d)) (String.◌∷◌ d "") (split-ne-nil s (code d))
      ∙ ap (String.◌∷◌ c) (join-split s d))
]
