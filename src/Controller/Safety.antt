-- ===== src/Controller/Safety.antt =====
-- Which commands a round may run on the host for a resource, whatever lvm2 answers.
pub mod Syncers
pub mod Loop
pub mod Steps
pub mod Rounds
pub mod Termination
use topovgm.Prelude.{String, ◌≡◌, ◌≢◌, Bool, true, false, Option, none, some, List, []}
use topovgm.Prelude.Int.{ℤ}
use topovgm.Go.Preserves.{Preserves}
use topovgm.Api.Spec.{fail_sync, force_remove_missing, move_and_reduce, force_reduce}
use topovgm.Lvm.{
  LvmTypes, LvmVolumeGroup, LvmClient, Command, vg_create, vg_remove, vg_change, vg_extend,
  vg_reduce, vg_rename, pv_move,
}
use topovgm.Controller.Platform.{Platform, Resource, Host}
use topovgm.Controller.Convert.{get_name_on_node}
use topovgm.Controller.Reconcile.{finalizer, with_finalizers}

module _ (P : Platform) where
  -- For a resource that is kept: commands on its own volume group that neither remove nor rename
  -- it. Missing devices are removed only by a policy that asks for it, and by force only with
  -- ForceRemove; other devices by force only with ForceReduce; and extents are moved only with
  -- MoveAndReduce.
  abbrev pub MaySync : Resource P → Command P.lvm → Type 0
  MaySync vg (vg_create opts) = opts.volume_group_name ≡ get_name_on_node P vg
  MaySync vg (vg_remove _ _) = ⊥
  MaySync vg (vg_change name _) = name ≡ get_name_on_node P vg
  MaySync vg (vg_extend name _) = name ≡ get_name_on_node P vg
  MaySync vg (vg_reduce name names true force) =
      (name ≡ get_name_on_node P vg)
      × (names ≡ [])
      × (vg.spec.device_loss_synchronization_policy ≢ fail_sync)
      × (force ≡ (elim vg.spec.device_loss_synchronization_policy [
        | force_remove_missing ↦ true
        | _ ↦ false
      ]))
  MaySync vg (vg_reduce name names false force) =
      (name ≡ get_name_on_node P vg)
      × (force ≡ (elim vg.spec.device_removal_volume_policy [ force_reduce ↦ true | _ ↦ false ]))
  MaySync vg (vg_rename _ _) = ⊥
  MaySync vg (pv_move _ _) = vg.spec.device_removal_volume_policy ≡ move_and_reduce

  -- For a resource that is being deleted: the removal of its own volume group, and nothing else.
  abbrev pub MayRemove : Resource P → Command P.lvm → Type 0
  MayRemove vg (vg_remove name _) = name ≡ get_name_on_node P vg
  MayRemove vg _ = ⊥

  abbrev pub MayRunAt : Option ℤ → Resource P → Command P.lvm → Type 0
  MayRunAt none vg c = MaySync vg c
  MayRunAt (some _) vg c = MayRemove vg c

  abbrev pub MayRun : Resource P → Command P.lvm → Type 0
  MayRun vg c = MayRunAt vg.meta.deletion_timestamp vg c

module _ (P : Platform) {W : Type 0} (h : Host P W) where
  -- lvm2 returns the volume group that it is asked for.
  abbrev pub LooksUpByName : Type 0
  LooksUpByName =
      (name : String) (w : W) (lvm : LvmVolumeGroup P.lvm)
      → (LvmClient.vg h.client name w).0.0 ≡ some lvm
      → lvm.name ≡ name

  module _ (Inv : W → Type 0) where
    -- All that is called but the commands and the writes of finalizers keeps the property `Inv` of
    -- the world.
    pub record IsQuiet : Type 0 where
      pub vg : (name : String) (w : W) → Inv w → Inv (LvmClient.vg h.client name w).1
      pub pvs : (name : String) → Preserves Inv (LvmClient.pvs h.client name)
      pub run_lsblk : (columns : List String) → Preserves Inv (h.run_lsblk columns)
      pub get : (request : String × String) → Preserves Inv (h.get request)
      pub update_status : (vg : Resource P) → Preserves Inv (h.update_status vg)
      pub now : (w : W) → Inv w → Inv (h.now w).1

    -- So does each command that is allowed.
    abbrev pub AllowedPreserve : (Command P.lvm → Type 0) → Type 0
    AllowedPreserve Allowed =
        (c : Command P.lvm) → Allowed c → Preserves Inv (LvmClient.run h.client c)

    -- So do the writes of a resource with the controller's finalizer added, if it is kept, and of one
    -- with the finalizer removed, if it is being deleted.
    abbrev pub WritesPreserve : Option ℤ → Type 0
    WritesPreserve none =
        (vg : Resource P)
        → Preserves Inv
            (h.update (with_finalizers P vg (P.add_finalizer vg.meta.finalizers finalizer).0))
    WritesPreserve (some _) =
        (vg : Resource P)
        → Preserves Inv
            (h.update (with_finalizers P vg (P.remove_finalizer vg.meta.finalizers finalizer).0))
