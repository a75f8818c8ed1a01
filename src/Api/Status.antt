-- ===== src/Api/Status.antt =====
-- `VolumeGroupStatus`, `PhysicalVolumeStatus` and the resource, over the type `Q` of quantities.
use topovgm.Prelude.{String, Option, List}
use topovgm.Prelude.Int.{ℤ}
use topovgm.Api.Spec.{VolumeGroupSpec}

pub record PhysicalVolumeStatus (Q : Type 0) : Type 0 where
  pub name : String
  pub uuid : String
  pub device_size : Option Q
  pub attributes : String
  pub major : ℤ
  pub minor : ℤ
  pub size : Option Q
  pub free : Option Q
  pub used : Option Q
  pub metadata_area_free : Option Q
  pub metadata_area_size : Option Q
  pub physical_extent_start : Option Q
  pub metadata_area_count : ℤ
  pub metadata_area_used_count : ℤ
  pub tags : List String
  pub device_id : String
  pub device_id_type : String

-- `metav1.Condition`, without the time of the last transition, which the program neither reads nor
-- writes.
pub record Condition : Type 0 where
  pub kind : String
  pub status : String
  pub reason : String
  pub text : String
  pub observed_generation : ℤ

pub record VolumeGroupStatus (Q : Type 0) : Type 0 where
  pub name : String
  pub uuid : String
  pub sys_id : String
  pub physical_volumes : List (PhysicalVolumeStatus Q)
  pub attributes : String
  pub tags : List String
  pub extent_size : Option Q
  pub extent_count : ℤ
  pub sequence_number : ℤ
  pub size : Option Q
  pub free : Option Q
  pub physical_volume_count : ℤ
  pub missing_physical_volume_count : ℤ
  pub maximum_physical_volumes : ℤ
  pub logical_volume_count : ℤ
  pub maximum_logical_volumes : ℤ
  pub snapshot_count : ℤ
  pub metadata_area_count : ℤ
  pub metadata_area_used_count : ℤ
  pub conditions : List Condition

-- The fields of `metav1.ObjectMeta` that the controller reads or writes. The deletion timestamp is in
-- nanoseconds.
pub record ObjectMeta : Type 0 where
  pub name : String
  pub uid : String
  pub generation : ℤ
  pub deletion_timestamp : Option ℤ
  pub deletion_grace_period_seconds : Option ℤ
  pub finalizers : List String

pub record VolumeGroup (Q : Type 0) : Type 0 where
  pub meta : ObjectMeta
  pub spec : VolumeGroupSpec Q
  pub status : VolumeGroupStatus Q
