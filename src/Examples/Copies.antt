-- ===== src/Examples/Copies.antt =====
-- Deep copies of a budget with actions, an exclusion and a condition, over a heap.
use namespace_cost_governor.Base.{
  ℕ, false, ◌≡◌, refl, Option, none, some, List, [], ◌∷◌, arith, nat_beq, if◌then◌else◌,
}
use namespace_cost_governor.Base.Int.{pos}
use mathlib.Core.Option
use namespace_cost_governor.DeepCopy.Structs.{
  Address, ObjectMeta, ListMeta, LabelSelector, LabelSelectorRequirement, NamespaceBudget,
  CostReportList,
}
use namespace_cost_governor.DeepCopy.Heap.{Heap, Cell}
use namespace_cost_governor.DeepCopy.Cells.{
  texts_kind, time_kind, labels_kind, requirement_array_kind, count_kind,
}
use namespace_cost_governor.DeepCopy.Allocating.{Allocating, pure, ◌>>=◌, copy_ref, copy_each}
use namespace_cost_governor.DeepCopy.Foreign.{Foreign}
use namespace_cost_governor.DeepCopy.Foreign.Laws.{IsLawful}
use namespace_cost_governor.DeepCopy.Copied.{IsSound, IsCopy}
use namespace_cost_governor.DeepCopy.Parts.{pure-IsCopy, copy_ref-IsCopy, copy_each-IsCopy}
use namespace_cost_governor.DeepCopy.Fields.{struct1-IsCopy, struct2-IsCopy}
use namespace_cost_governor.DeepCopy.Values.{
  read_object_meta, read_list_meta, read_requirement, read_label_selector, read_namespace_budget,
}
use namespace_cost_governor.DeepCopy.Writes.{write_all}
use namespace_cost_governor.DeepCopy.Object.{Object, Contents, read_object, deep_copy_object}
use namespace_cost_governor.DeepCopy.Object.Typed.{
  GoType, go_type, holds_nil, deep_copy_object-typed,
}
use namespace_cost_governor.DeepCopy.Object.Separate.{deep_copy_object-separate}

meta_deep_copy_into : ObjectMeta Address → Allocating (ObjectMeta Address)
meta_deep_copy_into meta = do
  finalizers ← copy_ref pure texts_kind meta.finalizers
  deletion ← copy_ref pure time_kind meta.deletion_timestamp
  pure (record meta { finalizers = finalizers; deletion_timestamp = deletion })

meta-IsCopy : IsCopy meta_deep_copy_into read_object_meta
unfolding meta_deep_copy_into read_object_meta
meta-IsCopy =
    struct2-IsCopy (λ x. x.finalizers) (λ x. x.deletion_timestamp)
      (λ x a0 a1. record x { finalizers = a0; deletion_timestamp = a1 })
      (λ x b0 b1. record {
        name = x.name;
        namespace = x.namespace;
        finalizers = b0;
        deletion_timestamp = b1;
      })
      (copy_ref-IsCopy pure-IsCopy texts_kind) (copy_ref-IsCopy pure-IsCopy time_kind)
      λ x a0 a1. refl

list_meta_deep_copy_into : ListMeta Address → Allocating (ListMeta Address)
list_meta_deep_copy_into meta = do
  count ← copy_ref pure count_kind meta.remaining_item_count
  pure (record meta { remaining_item_count = count })

list_meta-IsCopy : IsCopy list_meta_deep_copy_into read_list_meta
unfolding list_meta_deep_copy_into read_list_meta
list_meta-IsCopy =
    struct1-IsCopy (λ x. x.remaining_item_count) (λ x a0. record x { remaining_item_count = a0 })
      (λ x b0. record { resource_version = x.resource_version; remaining_item_count = b0 })
      (copy_ref-IsCopy pure-IsCopy count_kind) λ x a0. refl

requirement_deep_copy_into :
    LabelSelectorRequirement Address → Allocating (LabelSelectorRequirement Address)
requirement_deep_copy_into requirement = do
  values ← copy_ref pure texts_kind requirement.values
  pure (record requirement { values = values })

requirement-IsCopy : IsCopy requirement_deep_copy_into read_requirement
unfolding requirement_deep_copy_into read_requirement
requirement-IsCopy =
    struct1-IsCopy (λ x. x.values) (λ x a0. record x { values = a0 })
      (λ x b0. record { key = x.key; operator = x.operator; values = b0 })
      (copy_ref-IsCopy pure-IsCopy texts_kind) λ x a0. refl

selector_deep_copy_into : LabelSelector Address → Allocating (LabelSelector Address)
selector_deep_copy_into selector = do
  labels ← copy_ref pure labels_kind selector.match_labels
  expressions ←
      copy_ref (copy_each requirement_deep_copy_into) requirement_array_kind
        selector.match_expressions
  pure (record selector { match_labels = labels; match_expressions = expressions })

selector-IsCopy : IsCopy selector_deep_copy_into read_label_selector
unfolding selector_deep_copy_into read_label_selector
selector-IsCopy =
    struct2-IsCopy (λ x. x.match_labels) (λ x. x.match_expressions)
      (λ x a0 a1. record x { match_labels = a0; match_expressions = a1 })
      (λ x b0 b1. record { match_labels = b0; match_expressions = b1 })
      (copy_ref-IsCopy pure-IsCopy labels_kind)
      (copy_ref-IsCopy (copy_each-IsCopy requirement-IsCopy) requirement_array_kind) λ x a0 a1. refl

abbrev apimachinery : Foreign
apimachinery = record {
  object_meta_deep_copy_into = meta_deep_copy_into;
  list_meta_deep_copy_into = λ x. list_meta_deep_copy_into x;
  time_deep_copy_into = pure;
  condition_deep_copy_into = pure;
  label_selector_deep_copy_into = selector_deep_copy_into;
}

apimachinery-IsLawful : IsLawful apimachinery
apimachinery-IsLawful = record {
  object_meta = meta-IsCopy;
  list_meta = list_meta-IsCopy;
  time = pure-IsCopy;
  condition = pure-IsCopy;
  label_selector = selector-IsCopy;
}

abbrev budget_struct : NamespaceBudget Address
budget_struct = record {
  type_meta = record { kind = "NamespaceBudget"; api_version = "cost.cost.platform.io/v1alpha1" };
  object_meta = record {
    name = "team-a";
    namespace = "team-a";
    finalizers = some 0;
    deletion_timestamp = none;
  };
  spec = record {
    monthly = record { cpu = "500"; memory = "1000Gi" };
    idle_threshold = record { cpu_percent = pos 5; window = "2h" };
    actions = record { on_warning = some 1; on_exceeded = none; on_hard_limit = some 2 };
    exclusions = some 3;
  };
  status = record {
    phase = "Exceeded";
    current_usage = record { cpu = "510"; memory = "20" };
    accumulated = record { core_hours = "510"; gib_hours = "20"; since = "2026-01-01T00:00:00Z" };
    last_reconcile = pos 7;
    budget_percent = pos 102;
    idle_workloads = some 5;
    last_report_ref = "";
    conditions = none;
  };
}

abbrev cells : ℕ → Option Cell
cells a =
    if nat_beq a 0
    then some (Cell.texts ("cost.platform.io/finalizer" ∷ []))
    else (if nat_beq a 1
        then some (
            Cell.action_array
              (record { notify = "#ops"; scale_down_idle = false; suspend_all = false } ∷ []))
        else (if nat_beq a 2
            then some (Cell.action_array [])
            else (if nat_beq a 3
                then some (
                    Cell.exclusion_array (
                      record { name = "api"; label_selector = some 4 }
                      ∷ record { name = "db"; label_selector = none }
                      ∷ []))
                else (if nat_beq a 4
                    then some (
                        Cell.label_selector
                          (record { match_labels = some 7; match_expressions = none }))
                    else (if nat_beq a 5
                        then some (
                            Cell.idle_workload_array (
                              record { name = "batch"; namespace = "team-a"; idle_since = pos 6 }
                              ∷ []))
                        else (if nat_beq a 6
                            then some (Cell.budget budget_struct)
                            else (if nat_beq a 7
                                then some (Cell.labels (("tier", "prod") ∷ []))
                                else none)))))))

abbrev memory : Heap
memory = record { next = 8; cell = cells }

abbrev contents : Contents
contents = Contents.namespace_budget (record {
  type_meta = budget_struct.type_meta;
  object_meta = record {
    name = "team-a";
    namespace = "team-a";
    finalizers = some ("cost.platform.io/finalizer" ∷ []);
    deletion_timestamp = none;
  };
  spec = record {
    monthly = budget_struct.spec.monthly;
    idle_threshold = budget_struct.spec.idle_threshold;
    actions = record {
      on_warning =
          some (record { notify = "#ops"; scale_down_idle = false; suspend_all = false } ∷ []);
      on_exceeded = none;
      on_hard_limit = some [];
    };
    exclusions = some (
        record {
          name = "api";
          label_selector =
              some
                (record { match_labels = some (("tier", "prod") ∷ []); match_expressions = none });
        }
        ∷ record { name = "db"; label_selector = none }
        ∷ []);
  };
  status = record {
    phase = "Exceeded";
    current_usage = budget_struct.status.current_usage;
    accumulated = budget_struct.status.accumulated;
    last_reconcile = pos 7;
    budget_percent = pos 102;
    idle_workloads =
        some (record { name = "batch"; namespace = "team-a"; idle_since = pos 6 } ∷ []);
    last_report_ref = "";
    conditions = none;
  };
})

contents_read : read_object (Object.namespace_budget (some 6)) memory ≡ some contents
unfolding read_object read_namespace_budget
contents_read = refl

memory-IsSound : IsSound memory
memory-IsSound = record { unused = λ a past. ground arith }

-- The exclusions are overwritten through the original, the array of the copied actions through the
-- copy.
abbrev old_writes : List (ℕ × Cell)
old_writes = (3, Cell.exclusion_array []) ∷ (7, Cell.labels []) ∷ []

abbrev new_writes : List (ℕ × Cell)
new_writes = (8, Cell.action_array []) ∷ (9, Cell.texts []) ∷ []

deep_copy_object-separate_example :
    (copy : Object) × (g : Heap) × (deep_copy_object apimachinery
        (Object.namespace_budget (some 6))
        memory
      ≡ some (some copy, g))
    × (read_object copy (write_all old_writes g) ≡ some contents)
    × (read_object (Object.namespace_budget (some 6)) (write_all new_writes g) ≡ some contents)
deep_copy_object-separate_example =
    deep_copy_object-separate apimachinery apimachinery-IsLawful (Object.namespace_budget (some 6))
      contents memory old_writes new_writes memory-IsSound contents_read (omega arith) (omega arith)

-- A list of reports, empty as Go's zero value is.
abbrev no_reports : CostReportList Address
no_reports = record {
  type_meta = record { kind = "CostReportList"; api_version = "cost.cost.platform.io/v1alpha1" };
  list_meta = record { resource_version = "17"; remaining_item_count = none };
  items = none;
}

abbrev listed : Heap
listed = record {
  next = 1;
  cell = λ a. if nat_beq a 0 then some (Cell.report_list no_reports) else none;
}

abbrev relisted : Heap
relisted = record {
  next = 2;
  cell = λ a. if nat_beq a 1 then some (Cell.report_list no_reports) else listed.cell a;
}

copy_at_1 :
    deep_copy_object apimachinery (Object.cost_report_list (some 0)) listed
    ≡ some (some (Object.cost_report_list (some 1)), relisted)
unfolding deep_copy_object list_meta_deep_copy_into
copy_at_1 = refl

deep_copy_object-typed_example :
    (Option.map go_type (some (Object.cost_report_list (some 1))) ≡ some GoType.cost_report_list)
    × (holds_nil (some (Object.cost_report_list (some 1))) ≡ false)
deep_copy_object-typed_example =
    deep_copy_object-typed apimachinery (Object.cost_report_list (some 0))
      (some (Object.cost_report_list (some 1))) listed relisted copy_at_1
