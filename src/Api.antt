-- ===== src/Api.antt =====
-- api/v1alpha1/volumegroup_types.go: the VolumeGroup resource.
pub mod Selector
pub mod Spec
pub mod Status
pub mod Copies
