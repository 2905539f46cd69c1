-- ===== src/Api.antt =====
-- The custom resources of api/v1alpha1 (nodedisruption_types.go,
-- applicationdisruptionbudget_types.go, nodedisruptionbudget_types.go), field by field, and the
-- Kubernetes objects that the code reads. A time is a number of nanoseconds since Go's zero time,
-- which is 0; a duration is a number of nanoseconds too.
pub mod Slice
pub mod Types
pub mod Objects
pub mod Equality
pub mod StatusEquality
pub use Types.*
