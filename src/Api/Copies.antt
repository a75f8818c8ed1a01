-- ===== src/Api/Copies.antt =====
-- api/v1alpha1/zz_generated.deepcopy.go: the deep copies, over objects in memory, with pointers and
-- slices that have addresses.
pub mod Memory
pub mod Selector
pub mod Packages
pub mod PhysicalVolume
pub mod Spec
pub mod Status
pub mod Resource
pub mod Laws
pub mod Deep
pub mod Separation
