-- ===== src/DeepCopy.antt =====
-- api/v1alpha1/zz_generated.deepcopy.go: the copies that client code makes of the custom resource.
pub mod Memory
pub mod Copies
pub mod Types
pub mod Functions
pub mod Faithful
pub mod Apart
