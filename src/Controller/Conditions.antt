-- ===== src/Controller/Conditions.antt =====
-- internal/controller/volumegroup_synced_on_host.go: the condition of a resource.
use topovgm.Prelude.{String, ◌<>◌, List}
use topovgm.Prelude.Int.{ℤ, pos}
use topovgm.Go.{Error, text}
use topovgm.Api.Status.{Condition}
use topovgm.Controller.Platform.{Platform}

abbrev pub condition_type : String
condition_type = "VolumeGroupSyncedOnNode"

abbrev pub reason_synced : String
reason_synced = "VolumeGroupSynced"

abbrev pub reason_sync_failed : String
reason_sync_failed = "VolumeGroupSyncFailed"

abbrev pub reason_sync_pending : String
reason_sync_pending = "VolumeGroupSyncPending"

-- `SyncedOnHost`
abbrev synced_on_host : Condition
synced_on_host = record {
  kind = condition_type;
  status = "False";
  reason = reason_sync_pending;
  text = "The volume group is waiting to be synchronized with the node.";
  observed_generation = pos 0;
}

-- The three conditions that are set, by the resource's generation.
abbrev pub pending : ℤ → Condition
pending generation = record synced_on_host { observed_generation = generation }

abbrev pub failed : ℤ → Error → Condition
failed generation err = record synced_on_host {
  reason = reason_sync_failed;
  text = "volume group creation failed: " <> text err;
  observed_generation = generation;
}

abbrev pub synced : ℤ → Condition
synced generation = record synced_on_host {
  status = "True";
  reason = reason_synced;
  text = "The volume group is present on the node and discoverable in the lvm2 subsystem.";
  observed_generation = generation;
}

module _ (P : Platform) where
  unfoldable pub set_synced_on_host_default : List Condition → ℤ → List Condition
  set_synced_on_host_default conditions generation =
      P.set_status_condition conditions (pending generation)

  unfoldable pub set_synced_on_host_creation_failed : List Condition → ℤ → Error → List Condition
  set_synced_on_host_creation_failed conditions generation err =
      P.set_status_condition conditions (failed generation err)

  unfoldable pub set_synced_on_host_creation_ok : List Condition → ℤ → List Condition
  set_synced_on_host_creation_ok conditions generation =
      P.set_status_condition conditions (synced generation)
