-- ===== src/Api/Kube.antt =====
-- The Kubernetes objects, as far as the program reads or writes them.
use namespace_cost_governor.Base.{String, Option, none, some}
use namespace_cost_governor.Base.Int.{ℤ}
use namespace_cost_governor.Base.Dict
use namespace_cost_governor.Base.Dict.{Dict}
use namespace_cost_governor.Go.Time.{Time}

-- metav1.LabelSelector, in its serialized form: only Kubernetes code looks inside.
pub record LabelSelector : Type 0 where
  pub text : String

pub data ConditionStatus : Type 0 where
  condition_true condition_false condition_unknown : ConditionStatus

-- metav1.Condition; `kind` is its `Type`.
pub record Condition : Type 0 where
  pub kind : String
  pub status : ConditionStatus
  pub reason : String
  pub message : String
  pub last_transition_time : Time

-- appsv1.Deployment. A nil map of annotations and a nil `Spec.Replicas` are `none`.
pub record Deployment : Type 0 where
  pub name : String
  pub namespace : String
  pub labels : Dict String
  pub annotations : Option (Dict String)
  pub replicas : Option ℤ

-- `m[k]` with the test whether it is there; reading a nil map finds nothing.
unfoldable pub annotation : String → Deployment → Option String
unfolding Dict.lookup
annotation k d = elim d.annotations [ none ↦ none | some m ↦ Dict.lookup k m ]

-- `m[k] = v` after `if m == nil { m = map[string]string{} }`
unfoldable pub annotate : String → String → Option (Dict String) → Option (Dict String)
unfolding Dict.insert
annotate k v none = some (Dict.insert k v Dict.empty)
annotate k v (some m) = some (Dict.insert k v m)

-- `delete(m, k)`, which does nothing on a nil map
unfoldable pub unannotate : String → Option (Dict String) → Option (Dict String)
unfolding Dict.erase
unannotate k none = none
unannotate k (some m) = some (Dict.erase k m)
