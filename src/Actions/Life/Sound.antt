-- ===== src/Actions/Life/Sound.antt =====
-- What every step of the diagram keeps: the count that a Deployment is meant to run with, and all
-- of it that is not the operator's.
use namespace_cost_governor.Base.{
  String, Option, some, true, false, ◌≡◌, refl, sym, ap, ◌∙◌, if◌then◌else◌,
}
use namespace_cost_governor.Base.Dict
use namespace_cost_governor.Base.Int.{ℤ, pos, negsuc, ◌≤ℤ◌}
use namespace_cost_governor.Api.Kube.{Deployment, annotation}
use namespace_cost_governor.Outside.Laws.{Same}
use namespace_cost_governor.Actions.ScaleDown.{
  annotation_original_replicas, annotation_scaled_down_by, is_scaled_down_by_operator,
  original_replicas,
}
use namespace_cost_governor.Actions.ScaleDown.Annotations.{is_ours, is_scaled_down_by_operator-Same}
use namespace_cost_governor.Actions.Life.{recorded_count, read_count}

abbrev pub InInt32 : ℤ → Type 0
InInt32 n = (negsuc 2147483647 ≤ℤ n) × (n ≤ℤ pos 2147483647)

-- The count that the Deployment has or, while it is marked, is to get back.
unfoldable pub intended : Deployment → Option ℤ
intended d = if is_scaled_down_by_operator d then recorded_count d else some (original_replicas d)

-- Its count is an int32 and, if it is marked, there is an int32 on record.
pub record IsSound (d : Deployment) : Type 0 where
  pub count : InInt32 (original_replicas d)
  pub record_of :
      is_scaled_down_by_operator d ≡ true → (c : ℤ) × (recorded_count d ≡ some c) × InInt32 c

-- What is not the operator's is the same in both.
pub record SameOutside (d e : Deployment) : Type 0 where
  pub name : e.name ≡ d.name
  pub namespace : e.namespace ≡ d.namespace
  pub labels : (k : String) → Dict.lookup k e.labels ≡ Dict.lookup k d.labels
  pub annotations : (k : String) → is_ours k ≡ false → annotation k e ≡ annotation k d

pub intended-marked :
    (d : Deployment) → is_scaled_down_by_operator d ≡ true → intended d ≡ recorded_count d
unfolding intended
intended-marked d mark = rw (intended, mark) refl

pub intended-bare :
    (d : Deployment)
    → is_scaled_down_by_operator d ≡ false
    → intended d ≡ some (original_replicas d)
unfolding intended
intended-bare d bare = rw (intended, bare) refl

recorded_count-Same :
    (d e : Deployment)
    → annotation annotation_original_replicas e ≡ annotation annotation_original_replicas d
    → recorded_count e ≡ recorded_count d
unfolding recorded_count
recorded_count-Same d e same = ap read_count same

original_replicas-Same :
    (d e : Deployment) → e.replicas ≡ d.replicas → original_replicas e ≡ original_replicas d
unfolding original_replicas
original_replicas-Same d e same = rw (original_replicas, same) refl

-- One Deployment stands for another that no reader can tell from it.
pub Sound-Same : (d e : Deployment) → Same e d → IsSound d → IsSound e
Sound-Same d e same sound = record {
  count = rw (original_replicas-Same d e same.replicas) sound.count;
  record_of = λ mark.
      let (c, recorded, fits) = sound.record_of (
        sym (is_scaled_down_by_operator-Same d e (same.annotations annotation_scaled_down_by))
        ∙ mark) in
      (c, recorded_count-Same d e (same.annotations annotation_original_replicas) ∙ recorded, fits);
}

pub intended-Same : (d e : Deployment) → Same e d → intended e ≡ intended d
unfolding intended
intended-Same d e same =
    rw
      (
        intended,
        is_scaled_down_by_operator-Same d e (same.annotations annotation_scaled_down_by),
        recorded_count-Same d e (same.annotations annotation_original_replicas),
        original_replicas-Same d e same.replicas,
      )
      refl
