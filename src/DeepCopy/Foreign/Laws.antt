-- ===== src/DeepCopy/Foreign/Laws.antt =====
-- What the deep copies of k8s.io/apimachinery are documented to do: each copies the receiver.
use namespace_cost_governor.DeepCopy.Reading.{pure}
use namespace_cost_governor.DeepCopy.Foreign.{Foreign}
use namespace_cost_governor.DeepCopy.Values.{read_object_meta, read_list_meta, read_label_selector}
use namespace_cost_governor.DeepCopy.Copied.{IsCopy}

pub record IsLawful (foreign : Foreign) : Type 0 where
  pub object_meta : IsCopy foreign.object_meta_deep_copy_into read_object_meta
  pub list_meta : IsCopy foreign.list_meta_deep_copy_into read_list_meta
  pub time : IsCopy foreign.time_deep_copy_into pure
  pub condition : IsCopy foreign.condition_deep_copy_into pure
  pub label_selector : IsCopy foreign.label_selector_deep_copy_into read_label_selector
