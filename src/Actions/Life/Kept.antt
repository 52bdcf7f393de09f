-- ===== src/Actions/Life/Kept.antt =====
-- The steps of the diagram keep what Sound says, one constructor after the other.
use mathlib.Core.Option.{some-injective}
use mathlib.Core.Path.{subst}
use namespace_cost_governor.Base.{arith, String, some, true, false, ◌≡◌, refl, sym, ap, ◌∙◌}
use namespace_cost_governor.Base.Int.{ℤ, pos}
use namespace_cost_governor.Go.Strconv.RoundTrip.{parse_int32-format_int}
use namespace_cost_governor.Api.Kube.{Deployment, annotation}
use namespace_cost_governor.Outside.Laws.{Same}
use namespace_cost_governor.Outside.Patch.{Same-refl}
use namespace_cost_governor.Actions.ScaleDown.{
  is_scaled_down_by_operator, original_replicas, marked, unmarked, with_replicas,
}
use namespace_cost_governor.Actions.ScaleDown.Annotations.{
  is_scaled_down_by_operator-marked, annotation-marked_original, annotation-marked_other,
  annotation-unmarked,
}
use namespace_cost_governor.Actions.ScaleDown.Restored.{is_scaled_down_by_operator-unmarked}
use namespace_cost_governor.Actions.Life.{
  Step, Steps, marks, scales, returns, unmarks, here, next, recorded_count, read_count,
}
use namespace_cost_governor.Actions.Life.Sound.{
  InInt32, intended, IsSound, SameOutside, intended-marked, intended-bare, Sound-Same,
  intended-Same,
}

-- What a Deployment keeps on its way from `d` to `e`.
pub record Kept (d e : Deployment) : Type 0 where
  pub sound : IsSound e
  pub count : intended e ≡ intended d
  pub outside : SameOutside d e

Kept-Same : (d t e : Deployment) → Same e t → Kept d t → Kept d e
Kept-Same d t e same kept = record {
  sound = Sound-Same t e same kept.sound;
  count = intended-Same t e same ∙ kept.count;
  outside = record {
    name = same.name ∙ kept.outside.name;
    namespace = same.namespace ∙ kept.outside.namespace;
    labels = λ k. same.labels k ∙ kept.outside.labels k;
    annotations = λ k foreign. same.annotations k ∙ kept.outside.annotations k foreign;
  };
}

recorded_count-marked :
    (at : String) (d : Deployment)
    → InInt32 (original_replicas d)
    → recorded_count (marked at d) ≡ some (original_replicas d)
unfolding recorded_count read_count
recorded_count-marked at d fits =
    rw (annotation-marked_original at d)
      (parse_int32-format_int (original_replicas d) fits.0 fits.1)

Kept-marked :
    (at : String) (d : Deployment)
    → IsSound d
    → is_scaled_down_by_operator d ≡ false
    → Kept d (marked at d)
unfolding marked original_replicas
Kept-marked at d sound bare =
    let recorded = recorded_count-marked at d sound.count in
    record {
      sound = record {
        count = sound.count;
        record_of = λ mark. (original_replicas d, recorded, sound.count);
      };
      count =
          intended-marked (marked at d) (is_scaled_down_by_operator-marked at d (marked at d) refl)
          ∙ recorded
          ∙ sym (intended-bare d bare);
      outside = record {
        name = refl;
        namespace = refl;
        labels = λ k. refl;
        annotations = λ k foreign. annotation-marked_other k at d foreign;
      };
    }

-- A marked Deployment keeps its record when its count is set.
Kept-with_replicas :
    (n : ℤ) (d : Deployment)
    → IsSound d
    → is_scaled_down_by_operator d ≡ true
    → InInt32 n
    → Kept d (with_replicas n d)
unfolding original_replicas is_scaled_down_by_operator recorded_count annotation
Kept-with_replicas n d sound mark fits = record {
  sound = record { count = fits; record_of = sound.record_of };
  count = intended-marked (with_replicas n d) mark ∙ sym (intended-marked d mark);
  outside = record {
    name = refl;
    namespace = refl;
    labels = λ k. refl;
    annotations = λ k foreign. refl;
  };
}

replicas-original : (d : Deployment) (n : ℤ) → d.replicas ≡ some n → original_replicas d ≡ n
unfolding original_replicas
replicas-original d n has = rw (original_replicas, has) refl

Kept-unmarked :
    (n : ℤ) (d : Deployment)
    → IsSound d
    → is_scaled_down_by_operator d ≡ true
    → recorded_count d ≡ some n
    → d.replicas ≡ some n
    → Kept d (unmarked d)
unfolding unmarked original_replicas
Kept-unmarked n d sound mark recorded has =
    let bare = is_scaled_down_by_operator-unmarked d (unmarked d) (Same-refl (unmarked d)) in
    record {
      sound = record { count = sound.count; record_of = λ again. cc (again, bare) };
      count =
          intended-bare (unmarked d) bare
          ∙ ap some (replicas-original d n has)
          ∙ sym (intended-marked d mark ∙ recorded);
      outside = record {
        name = refl;
        namespace = refl;
        labels = λ k. refl;
        annotations = λ k foreign. annotation-unmarked k d ∙ rw foreign refl;
      };
    }

unmarked_fits :
    (d : Deployment) (n : ℤ)
    → IsSound d
    → is_scaled_down_by_operator d ≡ true
    → recorded_count d ≡ some n
    → InInt32 n
unmarked_fits d n sound mark recorded =
    let (c, known, fits) = sound.record_of mark in
    subst InInt32 (some-injective _ _ (sym known ∙ recorded)) fits

Step-Kept : (d e : Deployment) → IsSound d → Step d e → Kept d e
Step-Kept d e sound step = elim step [
  | marks at bare runs same ↦ Kept-Same d (marked at d) e same (Kept-marked at d sound bare)
  | scales mark recorded same ↦
      Kept-Same d (with_replicas (pos 0) d) e same
        (Kept-with_replicas (pos 0) d sound mark (omega arith, omega arith))
  | returns n mark recorded same ↦
      Kept-Same d (with_replicas n d) e same
        (Kept-with_replicas n d sound mark (unmarked_fits d n sound mark recorded))
  | unmarks n mark recorded has same ↦
      Kept-Same d (unmarked d) e same (Kept-unmarked n d sound mark recorded has)
]

-- Along the diagram a sound Deployment stays sound: its count is an int32, and while it is marked
-- an int32 is on record. The count that it is meant to run with stays the same, and so do its name,
-- its namespace, its labels and the annotations that are not the operator's.
pub Steps-Kept : (d e : Deployment) → IsSound d → Steps d e → Kept d e
Steps-Kept d e sound here = record {
  sound = sound;
  count = refl;
  outside = record {
    name = refl;
    namespace = refl;
    labels = λ k. refl;
    annotations = λ k foreign. refl;
  };
}
Steps-Kept d e sound (next {e = c} s step) =
    let before = Steps-Kept d c sound s in
    let after = Step-Kept c e before.sound step in
    record {
      sound = after.sound;
      count = after.count ∙ before.count;
      outside = record {
        name = after.outside.name ∙ before.outside.name;
        namespace = after.outside.namespace ∙ before.outside.namespace;
        labels = λ k. after.outside.labels k ∙ before.outside.labels k;
        annotations =
            λ k foreign. after.outside.annotations k foreign ∙ before.outside.annotations k foreign;
      };
    }
