-- ===== src/DeepCopy.antt =====
-- The generated copies of API objects (api/v1alpha1/zz_generated.deepcopy.go), on a heap of arrays.
pub mod Heap
pub mod Parts
pub mod Lists
pub mod Slices
pub mod Objects
pub mod Copies
pub mod Depth
pub mod Readings
pub mod Resources
pub mod Independence
