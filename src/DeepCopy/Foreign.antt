-- ===== src/DeepCopy/Foreign.antt =====
-- The deep copies of k8s.io/apimachinery that the generated ones call.
pub mod Laws
use namespace_cost_governor.Go.Time.{Time}
use namespace_cost_governor.Api.Kube.{Condition}
use namespace_cost_governor.DeepCopy.Structs.{Address, ObjectMeta, ListMeta, LabelSelector}
use namespace_cost_governor.DeepCopy.Allocating.{Allocating}

pub record Foreign : Type 0 where
  pub object_meta_deep_copy_into : ObjectMeta Address → Allocating (ObjectMeta Address)
  pub list_meta_deep_copy_into : ListMeta Address → Allocating (ListMeta Address)
  pub time_deep_copy_into : Time → Allocating Time
  pub condition_deep_copy_into : Condition → Allocating Condition
  pub label_selector_deep_copy_into : LabelSelector Address → Allocating (LabelSelector Address)
