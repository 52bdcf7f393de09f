-- ===== src/Cli/Restore/Shown.antt =====
-- What `kubectl budget restore` shows.
use mathlib.Core.Path.{subst}
use namespace_cost_governor.Base.{
  ℕ, ◌+◌, String, List, [], ◌∷◌, ◌++◌, map, ◌≡◌, refl, sym, ap, ◌∙◌, inl, inr, none, some, true,
  false, Error, Result, ok, err, Option-cases, Bool-cases, Exec, ◌>>=◌, if◌then◌else◌,
}
use namespace_cost_governor.Base.Int.{ℤ}
use namespace_cost_governor.Go.Float.{Float64}
use namespace_cost_governor.Go.Strconv.{parse_int32}
use namespace_cost_governor.Api.Kube.{Deployment, annotation}
use namespace_cost_governor.Outside.{Outside}
use namespace_cost_governor.Actions.ScaleDown.{
  is_scaled_down_by_operator, annotation_original_replicas, unmarked, with_replicas,
}
use namespace_cost_governor.Actions.Life.{recorded_count, read_count}
use namespace_cost_governor.Cli.Console.{Console, build_client}
use namespace_cost_governor.Cli.Console.Shown.{
  IsTerminal, Emits-build_client, append_empty, append_assoc,
}
use namespace_cost_governor.Cli.Restore.{
  Line, missing_annotation, invalid_annotation, failed_to_restore, restored, line_text, line_of,
  counted, summary_text, restore_one, patch_restored, skip, restore_loop, restore_listed,
  restore_cmd,
}
use namespace_cost_governor.Cli.Validation.{validate_namespace}

-- The number of lines that say that a workload was restored.
pub count_restored : List Line → ℕ
count_restored [] = 0
count_restored (restored name n ∷ lines) = count_restored lines + 1
count_restored (_ ∷ lines) = count_restored lines

abbrev pub line_name : Line → String
line_name (missing_annotation name) = name
line_name (invalid_annotation name) = name
line_name (failed_to_restore name e) = name
line_name (restored name n) = name

-- The names of the marked Deployments of a list.
pub marked_names : List Deployment → List String
marked_names [] = []
marked_names (d ∷ ds) =
    let rest = marked_names ds in if is_scaled_down_by_operator d then d.name ∷ rest else rest

-- The calls on the cluster show nothing.
pub record IsQuiet {F : Float64} (O : Outside F) {S : Console O.World} (T : IsTerminal S)
    : Type 0 where
  pub patch :
      (base modified : Deployment) (w : O.World)
      → T.shown (O.patch_deployment base modified w).1 ≡ T.shown w
  pub list : (ns : String) (w : O.World) → T.shown (O.list_deployments ns w).1 ≡ T.shown w

module _ {F : Float64} (O : Outside F) {S : Console O.World} (T : IsTerminal S)
    (Q : IsQuiet O T) where
  abbrev pub texts : List Line → List String
  texts = map (λ l. line_text (λ e. S.error_text e) l)

  -- The world after a line.
  abbrev pub printed : Line → O.World → O.World
  printed l = S.print (line_text (λ e. S.error_text e) l)

  -- A run of the loop over Deployments, from a world to a world, with the lines that it prints: each
  -- marked Deployment has one, which says what became of its patch.
  pub data Told : List Deployment → O.World → List Line → O.World → Type 0 where
    told_end : (w : O.World) → Told [] w [] w
    told_bare :
        {d : Deployment} {ds : List Deployment} {w v : O.World} {lines : List Line}
        → is_scaled_down_by_operator d ≡ false
        → Told ds w lines v
        → Told (d ∷ ds) w lines v
    told_missing :
        {d : Deployment} {ds : List Deployment} {w v : O.World} {lines : List Line}
        → is_scaled_down_by_operator d ≡ true
        → annotation annotation_original_replicas d ≡ none
        → Told ds (printed (missing_annotation d.name) w) lines v
        → Told (d ∷ ds) w (missing_annotation d.name ∷ lines) v
    told_invalid :
        {d : Deployment} {ds : List Deployment} {w v : O.World} {lines : List Line} (text : String)
        → is_scaled_down_by_operator d ≡ true
        → annotation annotation_original_replicas d ≡ some text
        → parse_int32 text ≡ none
        → Told ds (printed (invalid_annotation d.name) w) lines v
        → Told (d ∷ ds) w (invalid_annotation d.name ∷ lines) v
    told_failed :
        {d : Deployment} {ds : List Deployment} {w v : O.World} {lines : List Line} (n : ℤ)
        (e : Error)
        → recorded_count d ≡ some n
        → is_scaled_down_by_operator d ≡ true
        → (O.patch_deployment d (unmarked (with_replicas n d)) w).0 ≡ err e
        → Told ds
            (printed
              (failed_to_restore d.name e)
              (O.patch_deployment d (unmarked (with_replicas n d)) w).1)
            lines
            v
        → Told (d ∷ ds) w (failed_to_restore d.name e ∷ lines) v
    told_restored :
        {d : Deployment} {ds : List Deployment} {w v : O.World} {lines : List Line} (n : ℤ)
        (answer : Deployment)
        → recorded_count d ≡ some n
        → is_scaled_down_by_operator d ≡ true
        → (O.patch_deployment d (unmarked (with_replicas n d)) w).0 ≡ ok answer
        → Told ds
            (printed (restored d.name n) (O.patch_deployment d (unmarked (with_replicas n d)) w).1)
            lines
            v
        → Told (d ∷ ds) w (restored d.name n ∷ lines) v

  -- One line for each marked Deployment, in order.
  Told-names :
      (ds : List Deployment) (w v : O.World) (lines : List Line)
      → Told ds w lines v
      → map line_name lines ≡ marked_names ds
  unfolding marked_names
  Told-names ds w v lines (told_end w') = refl
  Told-names ds w v lines (told_bare bare t) = rw bare (Told-names _ _ _ _ t)
  Told-names ds w v lines (told_missing {d} mark a t) =
      rw mark (ap (λ ns. d.name ∷ ns) (Told-names _ _ _ _ t))
  Told-names ds w v lines (told_invalid {d} x mark a p t) =
      rw mark (ap (λ ns. d.name ∷ ns) (Told-names _ _ _ _ t))
  Told-names ds w v lines (told_failed {d} n e c mark p t) =
      rw mark (ap (λ ns. d.name ∷ ns) (Told-names _ _ _ _ t))
  Told-names ds w v lines (told_restored {d} n a c mark p t) =
      rw mark (ap (λ ns. d.name ∷ ns) (Told-names _ _ _ _ t))

  -- A run of the loop, or of its rest, from `w`: the lines that it tells, and the number of those
  -- that say that a workload was restored.
  pub record Reported (ds : List Deployment) (w : O.World) (out : Result ℕ × O.World) : Type 0 where
    pub lines : List Line
    pub told : Told ds w lines out.1
    pub returned : out.0 ≡ ok (count_restored lines)
    pub shown : T.shown out.1 ≡ T.shown w ++ texts lines

  counted-line :
      (d : Deployment) (replicas : ℤ) (patched : Result Deployment) (lines : List Line)
      → counted patched (count_restored lines) ≡ count_restored (line_of d replicas patched ∷ lines)
  unfolding counted line_of count_restored
  counted-line d replicas (ok answer) lines = refl
  counted-line d replicas (err e) lines = refl

  -- The line on a patch says what became of it.
  Told-patch :
      (d : Deployment) (n : ℤ) (ds : List Deployment) (lines : List Line) (w v : O.World)
      (patched : Result Deployment)
      → recorded_count d ≡ some n
      → is_scaled_down_by_operator d ≡ true
      → (O.patch_deployment d (unmarked (with_replicas n d)) w).0 ≡ patched
      → Told ds
          (printed (line_of d n patched) (O.patch_deployment d (unmarked (with_replicas n d)) w).1)
          lines
          v
      → Told (d ∷ ds) w (line_of d n patched ∷ lines) v
  unfolding line_of
  Told-patch d n ds lines w v (ok answer) count mark same rest =
      told_restored n answer count mark same rest
  Told-patch d n ds lines w v (err e) count mark same rest = told_failed n e count mark same rest

  -- A line, and then the rest.
  shown-line :
      (l : Line) (lines : List Line) (w v : O.World)
      → T.shown v ≡ T.shown (S.print (line_text (λ e. S.error_text e) l) w) ++ texts lines
      → T.shown v ≡ T.shown w ++ texts (l ∷ lines)
  shown-line l lines w v after =
      after
      ∙ ap (λ xs. xs ++ texts lines) (T.shown-print _ w)
      ∙ append_assoc (T.shown w) (line_text (λ e. S.error_text e) l ∷ []) (texts lines)

  restore_one-Reported :
      (d : Deployment) (replicas : ℤ) (rest : Exec O.World ℕ) (ds : List Deployment)
      → recorded_count d ≡ some replicas
      → is_scaled_down_by_operator d ≡ true
      → ((w : O.World) → Reported ds w (rest w))
      → (w : O.World) → Reported (d ∷ ds) w (restore_one O S d replicas rest w)
  unfolding restore_one patch_restored ◌>>=◌
  restore_one-Reported d replicas rest ds count mark k w =
      let patch = O.patch_deployment d (unmarked (with_replicas replicas d)) in
      let l = line_of d replicas (patch w).0 in
      let w1 = S.print (line_text (λ e. S.error_text e) l) (patch w).1 in
      let r = k w1 in
      rw r.returned (record {
        lines = l ∷ r.lines;
        told = Told-patch d replicas ds r.lines w _ (patch w).0 count mark refl r.told;
        returned = ap (λ n. ok n) (counted-line d replicas (patch w).0 r.lines);
        shown =
            shown-line l r.lines (patch w).1 _ r.shown
            ∙ ap (λ xs. xs ++ texts (l ∷ r.lines)) (Q.patch d _ w);
      })

  skip-Reported :
      (l : Line) (rest : Exec O.World ℕ) (d : Deployment) (ds : List Deployment)
      → ((lines : List Line) → count_restored (l ∷ lines) ≡ count_restored lines)
      → ((w v : O.World) (lines : List Line)
          → Told ds (printed l w) lines v
          → Told (d ∷ ds) w (l ∷ lines) v)
      → ((w : O.World) → Reported ds w (rest w))
      → (w : O.World) → Reported (d ∷ ds) w (skip O S l rest w)
  unfolding skip ◌>>=◌
  skip-Reported l rest d ds same tell k w =
      let r = k (S.print (line_text (λ e. S.error_text e) l) w) in
      record {
        lines = l ∷ r.lines;
        told = tell w _ r.lines r.told;
        returned = r.returned ∙ ap (λ n. ok n) (sym (same r.lines));
        shown = shown-line l r.lines w _ r.shown;
      }

  bare-Reported :
      (d : Deployment) (ds : List Deployment) (w : O.World) (out : Result ℕ × O.World)
      → is_scaled_down_by_operator d ≡ false
      → Reported ds w out
      → Reported (d ∷ ds) w out
  bare-Reported d ds w out bare r = record {
    lines = r.lines;
    told = told_bare bare r.told;
    returned = r.returned;
    shown = r.shown;
  }

  restore_loop-Reported :
      (ds : List Deployment) (w : O.World) → Reported ds w (restore_loop O S ds w)
  unfolding restore_loop count_restored recorded_count read_count
  restore_loop-Reported [] w = record {
    lines = [];
    told = told_end w;
    returned = refl;
    shown = sym (append_empty (T.shown w));
  }
  restore_loop-Reported (d ∷ ds) w = elim (Bool-cases (is_scaled_down_by_operator d)) [
    | inr bare ↦ rw bare (bare-Reported d ds w _ bare (restore_loop-Reported ds w))
    | inl mark ↦ elim (Option-cases (annotation annotation_original_replicas d)) [
      | inl nothing ↦
          rw (mark, nothing)
            (skip-Reported (missing_annotation d.name) (restore_loop O S ds) d ds (λ lines. refl)
              (λ u v lines t. told_missing mark nothing t) (restore_loop-Reported ds) w)
      | inr (text, recorded) ↦ elim (Option-cases (parse_int32 text)) [
        | inl unreadable ↦
            rw (mark, recorded, unreadable)
              (skip-Reported (invalid_annotation d.name) (restore_loop O S ds) d ds (λ lines. refl)
                (λ u v lines t. told_invalid text mark recorded unreadable t)
                (restore_loop-Reported ds) w)
        | inr (original, read) ↦
            rw (mark, recorded, read)
              (restore_one-Reported d original (restore_loop O S ds) ds (rw recorded read) mark
                (restore_loop-Reported ds) w)
      ]
    ]
  ]

  -- What the command does with the Deployments that it listed, from `w`: the patches and the lines
  -- of a run, one line for each marked one, in order, and then the number of lines that say that a
  -- workload was restored.
  pub record Shows (ds : List Deployment) (before : List String) (w after : O.World) : Type 0 where
    pub lines : List Line
    pub end : O.World
    pub named : map line_name lines ≡ marked_names ds
    pub told : Told ds w lines end
    pub after_end : after ≡ S.print (summary_text (count_restored lines)) end
    pub shown :
        T.shown after ≡ before ++ (texts lines ++ (summary_text (count_restored lines) ∷ []))

  restore_listed-Shows :
      (ns : String) (w : O.World) (ds : List Deployment)
      → (O.list_deployments ns w).0 ≡ ok ds
      → ((restore_listed O S ns w).0 ≡ ok tt)
        × Shows ds (T.shown w) (O.list_deployments ns w).1 (restore_listed O S ns w).1
  unfolding restore_listed ◌>>=◌
  restore_listed-Shows ns w ds got =
      let r = restore_loop-Reported ds (O.list_deployments ns w).1 in
      rw (got, r.returned)
        (
          refl,
          record {
            lines = r.lines;
            end = (restore_loop O S ds (O.list_deployments ns w).1).1;
            named = Told-names _ _ _ _ r.told;
            told = r.told;
            after_end = refl;
            shown =
                T.shown-print _ _
                ∙ ap (λ xs. xs ++ (summary_text (count_restored r.lines) ∷ []))
                    (r.shown ∙ ap (λ xs. xs ++ texts r.lines) (Q.list ns w))
                ∙ append_assoc (T.shown w) (texts r.lines) _;
          },
        )

  -- The restore command, once the name is valid, the client is built and the Deployments are
  -- listed, never fails, whatever patches fail. From there it patches each marked Deployment with a
  -- readable count in order, and the terminal shows after what it showed before one line for each
  -- marked Deployment, which says that its patch succeeded and with which count, that it failed and
  -- how, or that the record was missing or unreadable and it was skipped; and then the number of
  -- the lines of success. This asks that the calls on the cluster show nothing.
  pub restore_cmd-Shows :
      (arg namespace : String) (w : O.World) (ds : List Deployment)
      → validate_namespace O arg ≡ ok namespace
      → (build_client S w).0 ≡ ok tt
      → (O.list_deployments namespace (build_client S w).1).0 ≡ ok ds
      → ((restore_cmd O S arg w).0 ≡ ok tt)
        × Shows ds
            (T.shown w)
            (O.list_deployments namespace (build_client S w).1).1
            (restore_cmd O S arg w).1
  unfolding restore_cmd ◌>>=◌
  restore_cmd-Shows arg namespace w ds valid built got =
      let quiet = (Emits-build_client T).at w tt built ∙ append_empty (T.shown w) in
      let w1 = (build_client S w).1 in
      let listed = restore_listed-Shows namespace w1 ds got in
      rw (valid, built)
        (
          listed.0,
          subst
              (λ b.
                Shows ds b (O.list_deployments namespace w1).1 (restore_listed O S namespace w1).1)
              quiet listed.1,
        )
