-- ===== src/DeepCopy.antt =====
-- api/v1alpha1/zz_generated.deepcopy.go: the deep copies of the custom resources, over a heap in
-- which slices and pointers are addresses.
pub mod Structs
pub mod Heap
pub mod Cells
pub mod Reading
pub mod Allocating
pub mod Foreign
pub mod Plain
pub mod Budget
pub mod Report
pub mod Values
pub mod Stable
pub mod Copied
pub mod Parts
pub mod Fields
pub mod Object
pub mod Writes
