-- ===== src/Controller/Convergence/Rounds.antt =====
-- What a round makes of the volume group.
use topovgm.Prelude.{ℕ, String, ◌≡◌, Option, false, none, some, List, string_eq}
use topovgm.Go.{Error, ok}
use topovgm.Lvm.{LvmVolumeGroup, LvmClient}
use topovgm.Controller.Platform.{Platform, Resource, Host}
use topovgm.Controller.Convert.{get_name_on_node}
use topovgm.Controller.Sync.{set_default}
use topovgm.Controller.Status.Success.{Converts}
use topovgm.Controller.Reconcile.{Config, finalizer, with_finalizers, reconcile}
use topovgm.Controller.Reconcile.Creation.{IsOwned}
use topovgm.Controller.Convergence.{Group}

abbrev no_error : Option Error
no_error = none

module _ (P : Platform) {W : Type 0} (h : Host P W) (view : W → Group) where
  -- The API server stores each status that it is sent, and the volume group stays as it is.
  abbrev pub StoresStatus : Type 0
  StoresStatus =
      (vg : Resource P) (w : W)
      → (w' : W) × (h.update_status vg w ≡ (ok tt, w')) × (view w' ≡ view w)

  module _ (config : Config) (request : String × String) where
    -- The request is for an owned resource that has the finalizer, and the lookup of its volume group
    -- returns the snapshot `lvm`, in the world `w'`; `finalizers` are those that `AddFinalizer` leaves.
    pub record Finds (w : W) (vg : Resource P) (finalizers : List String)
        (lvm : LvmVolumeGroup P.lvm) (w' : W) : Type 0 where
      pub w1 : W
      pub owned : IsOwned P h config request w vg w1
      pub looked : LvmClient.vg h.client (get_name_on_node P vg) w1 ≡ ((some lvm, none), w')
      pub present : P.add_finalizer vg.meta.finalizers finalizer ≡ (finalizers, false)

    -- The round returns no error and asks for the next one after the interval, in the world `w'`.
    abbrev pub Completes : ℕ → W → W → Type 0
    Completes fuel w w' =
        reconcile P h fuel config request w
        ≡ some (ok (record { requeue = false; requeue_after = config.sync_interval }, none), w')

    module _ (converts : Converts P) (stores : StoresStatus) (fuel : ℕ) {vg : Resource P}
        {lvm : LvmVolumeGroup P.lvm} {w w2 : W} {finalizers : List String}
        (finds : Finds w vg finalizers lvm w2) where
      abbrev asked : Resource P
      asked = set_default P (with_finalizers P vg finalizers)
