-- ===== src/Actions/ScaleDown/Annotations.antt =====
-- What the operator's annotations read as, after they are written and after they are removed.
use namespace_cost_governor.Base.{
  String, Option, none, some, Bool, true, false, ◌==◌, ◌||◌, ◌≡◌, refl, arith, if◌then◌else◌,
}
use namespace_cost_governor.Base.Dict
use namespace_cost_governor.Base.Int.{ℤ}
use namespace_cost_governor.Base.Dict.{Dict, dict_laws}
use namespace_cost_governor.Go.Strconv.{format_int}
use namespace_cost_governor.Api.Kube.{Deployment, annotation, annotate, unannotate}
use namespace_cost_governor.Actions.ScaleDown.{
  annotation_scaled_down_by, annotation_scaled_down_at, annotation_original_replicas,
  annotation_reason, operator_name, is_scaled_down_by_operator, original_replicas, marked, unmarked,
  with_replicas,
}

-- One of the four annotations of the operator.
abbrev pub is_ours : String → Bool
is_ours k =
    annotation_scaled_down_by == k
    || (annotation_scaled_down_at == k
        || (annotation_original_replicas == k || annotation_reason == k))

abbrev with_annotations : Option (Dict String) → Deployment → Deployment
with_annotations m d = record d { annotations = m }

annotation-annotate :
    (j k v : String) (m : Option (Dict String)) (d : Deployment)
    → annotation j (with_annotations (annotate k v m) d)
      ≡ (if k == j then some v else annotation j (with_annotations m d))
unfolding annotation annotate Dict.lookup
annotation-annotate j k v none d = rw (Dict.lookup-insert j k v Dict.empty)
annotation-annotate j k v (some m) d = Dict.lookup-insert j k v m

annotation-unannotate :
    (j k : String) (m : Option (Dict String)) (d : Deployment)
    → annotation j (with_annotations (unannotate k m) d)
      ≡ (if k == j then none else annotation j (with_annotations m d))
unfolding annotation unannotate
annotation-unannotate j k none d = ground arith
annotation-unannotate j k (some m) d = Dict.lookup-erase j k m

pub annotation-marked_by :
    (at : String) (d : Deployment)
    → annotation annotation_scaled_down_by (marked at d) ≡ some operator_name
unfolding marked
annotation-marked_by at d = simp annotation-annotate

pub annotation-marked_at :
    (at : String) (d : Deployment) → annotation annotation_scaled_down_at (marked at d) ≡ some at
unfolding marked
annotation-marked_at at d = simp annotation-annotate

pub annotation-marked_reason :
    (at : String) (d : Deployment)
    → annotation annotation_reason (marked at d) ≡ some "idle:cpu<threshold:30m"
unfolding marked
annotation-marked_reason at d = simp annotation-annotate

pub annotation-marked_original :
    (at : String) (d : Deployment)
    → annotation annotation_original_replicas (marked at d)
      ≡ some (format_int (original_replicas d))
unfolding marked
annotation-marked_original at d = simp annotation-annotate

pub annotation-marked_other :
    (k at : String) (d : Deployment)
    → is_ours k ≡ false
    → annotation k (marked at d) ≡ annotation k d
unfolding marked
annotation-marked_other k at d h = simp annotation-annotate (ground arith)

pub annotation-unmarked :
    (k : String) (d : Deployment)
    → annotation k (unmarked d) ≡ (if is_ours k then none else annotation k d)
unfolding unmarked
annotation-unmarked k d = simp annotation-unannotate (ground arith)

pub is_scaled_down_by_operator-marked :
    (at : String) (d d' : Deployment)
    → annotation annotation_scaled_down_by d' ≡ annotation annotation_scaled_down_by (marked at d)
    → is_scaled_down_by_operator d' ≡ true
unfolding is_scaled_down_by_operator
is_scaled_down_by_operator-marked at d d' e = ground (arith, annotation-marked_by at d)

pub annotation-with_replicas :
    (k : String) (n : ℤ) (d : Deployment) → annotation k (with_replicas n d) ≡ annotation k d
unfolding annotation
annotation-with_replicas k n d = refl

-- The mark is read off the annotations alone.
pub is_scaled_down_by_operator-Same :
    (d d' : Deployment)
    → annotation annotation_scaled_down_by d' ≡ annotation annotation_scaled_down_by d
    → is_scaled_down_by_operator d' ≡ is_scaled_down_by_operator d
unfolding is_scaled_down_by_operator
is_scaled_down_by_operator-Same d d' same = rw (is_scaled_down_by_operator, same) refl
