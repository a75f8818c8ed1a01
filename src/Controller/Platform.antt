-- ===== src/Controller/Platform.antt =====
-- The packages outside of the repository that the controller is built on, as parameters.
use topovgm.Prelude.{String, Bool, List}
use topovgm.Prelude.Int.{ℤ}
use topovgm.Go.{⊤, Error, M}
use topovgm.Api.Status.{Condition, VolumeGroup}
use topovgm.Lsblk.{BlockDevice, Column}
use topovgm.Lvm.{LvmTypes, LvmClient}
use topovgm.Selector.Quantity.{Quantities}

pub record Platform : Type 1 where
  pub quantities : Quantities
  pub lvm : LvmTypes
  -- `lvm2go.NewSize(q.AsApproximateFloat64(), lvm2go.UnitBytes)`
  pub new_size : Quantities.Quantity quantities → LvmTypes.Size lvm
  -- `meta.SetStatusCondition`
  pub set_status_condition : List Condition → Condition → List Condition
  -- `controllerutil.AddFinalizer` and `RemoveFinalizer`: the finalizers after the call, and whether
  -- it changed them.
  pub add_finalizer : List String → String → List String × Bool
  pub remove_finalizer : List String → String → List String × Bool

abbrev pub Quantity : Platform → Type 0
Quantity P = Quantities.Quantity P.quantities

abbrev pub Resource : Platform → Type 0
Resource P = VolumeGroup (Quantity P)

-- What the controller calls on a node in a world `W`: lvm2, `lsblk`, the API server and the clock.
pub record Host (P : Platform) (W : Type 0) : Type 0 where
  pub client : LvmClient P.lvm W
  pub run_lsblk : List Column → M W (List BlockDevice)
  -- `r.Client.Get`, by namespace and name.
  pub get : String × String → M W (Resource P)
  -- `apierrors.IsNotFound`
  pub is_not_found : Error → Bool
  -- `r.Update`
  pub update : Resource P → M W ⊤
  -- `r.Client.Status().Update`
  pub update_status : Resource P → M W ⊤
  -- `time.Now()`, in nanoseconds.
  pub now : W → ℤ × W
