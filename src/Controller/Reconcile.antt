-- ===== src/Controller/Reconcile.antt =====
-- internal/controller/volumegroup_controller.go: `Reconcile` and `initializeVG`.
pub mod Grace
pub mod Removal
pub mod Creation
pub mod Failure
pub mod Rounds
use topovgm.Prelude.{
  ℕ, String, Bool, true, false, not, Option, none, some, List, [], ◌∷◌, ◌==◌, string_eq,
  if◌then◌else◌,
}
use topovgm.Prelude.Int.{ℤ, pos, ◌+ℤ◌, ltb_ℤ, wrap64, scale}
use topovgm.Go.{
  ⊤, Error, wrapped, is_error, join, Outcome, ok, fail, panic, M, pure, lift, reading, as_value,
  wrapping, ◌>>=◌, ◌>>◌,
}
use topovgm.Lvm.{LvmTypes, LvmVolumeGroup, LvmClient, vg_create, vg_remove}
use topovgm.Controller.Platform.{Platform, Resource, Host}
use topovgm.Controller.Convert.{get_name_on_node, convert_to_vg_create_options}
use topovgm.Controller.Syncers.{run}
use topovgm.Controller.Sync.{State, set_failed, sync}
use topovgm.Controller.Status.{on_world, sync_status}

abbrev pub finalizer : String
finalizer = "topolvm.io/volumegroup-removal-on-node"

-- `ctrl.Result`
pub record Result : Type 0 where
  pub requeue : Bool
  pub requeue_after : ℤ

abbrev pub no_result : Result
no_result = record { requeue = false; requeue_after = pos 0 }

abbrev pub requeued : Result
requeued = record { requeue = true; requeue_after = pos 0 }

-- `(ctrl.Result, error)`
abbrev pub Answer : Type 0
Answer = Result × Option Error

-- The fields of `VolumeGroupReconciler` that are read.
pub record Config : Type 0 where
  pub node_name : String
  pub sync_interval : ℤ

-- `err = errors.Join(err, fmt.Errorf(...))`, if `syncStatus` failed.
abbrev pub with_status_error : Option Error → Option Error → Option Error
with_status_error err none = err
with_status_error err (some e) =
    join (err ∷ some (wrapped "failed to sync status from lvm2 into volume group" e) ∷ [])

-- The last return: an error, or a result that asks for the next round.
abbrev pub answer : Config → Option Error → Answer
answer config none = (record { requeue = false; requeue_after = config.sync_interval }, none)
answer config (some e) = (no_result, some e)

abbrev pub not_found : Option Error → ℕ → Bool
not_found none target = false
not_found (some e) target = is_error e target

module _ (P : Platform) where
  abbrev pub with_finalizers : Resource P → List String → Resource P
  with_finalizers vg finalizers = record vg { meta = record (vg.meta) { finalizers = finalizers } }

  -- `GetDeletionTimestamp().Add(time.Duration(*GetDeletionGracePeriodSeconds()) * time.Second)`
  abbrev pub force_at : ℤ → Option ℤ → Outcome ℤ
  force_at timestamp none = panic "nil pointer dereference"
  force_at timestamp (some seconds) = ok (timestamp +ℤ wrap64 (scale 1000000000 seconds))

module _ (P : Platform) {W : Type 0} (h : Host P W) where
  -- After `VGRemove`: the finalizer goes, or, if it is gone, the others are waited for.
  unfoldable pub drop_finalizer : Resource P → M W Answer
  drop_finalizer vg =
      let (finalizers, updated) = P.remove_finalizer vg.meta.finalizers finalizer in
      let changed = with_finalizers P vg finalizers in
      if updated
      then (do err ← as_value (h.update changed); pure (no_result, err))
      else pure (requeued, none)

  -- What `VGRemove` returned.
  abbrev pub after_remove : Resource P → Option Error → M W Answer
  after_remove vg none = drop_finalizer vg
  after_remove vg (some e) =
      if LvmTypes.is_lvm_not_found P.lvm e
      then drop_finalizer vg
      else pure (no_result, some (wrapped "failed to remove volume group" e))

  -- The branch for a resource with a deletion timestamp.
  unfoldable pub remove : Resource P → ℤ → M W Answer
  unfolding drop_finalizer
  remove vg timestamp = do
    at ← lift (force_at P timestamp vg.meta.deletion_grace_period_seconds)
    now ← reading h.now
    err ← as_value (run P h (vg_remove (get_name_on_node P vg) (ltb_ℤ at now)))
    after_remove vg err

  abbrev pub set_failed_in : Error → M (State P W) ⊤
  set_failed_in e s = (fail e, record s { vg = set_failed P (s.vg) e })

  -- After `VGCreate`: an error is recorded as a condition and returned.
  abbrev pub after_create : Option Error → M (State P W) ⊤
  after_create none = pure tt
  after_create (some e) = set_failed_in e

  unfoldable pub initialize_vg : M (State P W) ⊤
  initialize_vg s =
      (do
        opts ←
            wrapping (wrapped "failed to convert VolumeGroup to VGCreateOptions")
              (on_world P h (convert_to_vg_create_options P h (s.vg)))
        err ← as_value (on_world P h (run P h (vg_create opts)))
        after_create err)
        s

  -- `r.Client.Status().Update(ctx, vg)` with the resource as it is in memory.
  abbrev pub write_status : M (State P W) (Option Error)
  write_status s = as_value (on_world P h (h.update_status (s.vg))) s

  -- From the call of `syncStatus` on, with the error of `sync`.
  unfoldable pub finish :
      Config → Option (LvmVolumeGroup P.lvm) → Option Error → M (State P W) Answer
  finish config lvm err = do
    status_err ← as_value (sync_status P h lvm)
    write_err ← write_status
    pure (answer config (join (with_status_error err status_err ∷ write_err ∷ [])))

  -- What follows a call of `sync` that returned.
  abbrev pub after_sync :
      Config → Option (LvmVolumeGroup P.lvm) → Outcome ⊤ × State P W → Outcome Answer × State P W
  after_sync config lvm (ok _, s) = finish config lvm none s
  after_sync config lvm (fail e, s) =
      finish config lvm (some (wrapped "failed to sync volume group with lvm2" e)) s
  after_sync config lvm (panic p, s) = (panic p, s)

  abbrev pub sync_and_finish :
      ℕ → Config → Option (LvmVolumeGroup P.lvm) → State P W → Option (Outcome Answer × State P W)
  sync_and_finish fuel config lvm s = elim (sync P h fuel lvm s) [
    | none ↦ none
    | some out ↦ some (after_sync config lvm out)
  ]

  -- From `AddFinalizer` on, for a volume group that is on the host or was just created.
  unfoldable pub keep :
      ℕ → Config → Option (LvmVolumeGroup P.lvm) → State P W → Option (Outcome Answer × State P W)
  unfolding finish
  keep fuel config lvm s =
      let (finalizers, updated) = P.add_finalizer (s.vg.meta.finalizers) finalizer in
      let changed = record s { vg = with_finalizers P (s.vg) finalizers } in
      let added =
        (do err ← as_value (on_world P h (h.update (changed.vg))); pure (requeued, err)) changed in
      let synced = sync_and_finish fuel config lvm changed in if updated then some added else synced

  -- An error of the discovery or of the creation is returned, and the status is written.
  abbrev pub give_up : Error → M (State P W) Answer
  give_up e = do write_err ← write_status; pure (no_result, join (some e ∷ write_err ∷ []))

  abbrev pub after_discovery :
      ℕ
      → Config
      → Option (LvmVolumeGroup P.lvm)
      → Outcome (Option Error) × State P W
      → Option (Outcome Answer × State P W)
  after_discovery fuel config lvm (ok none, s) = keep fuel config lvm s
  after_discovery fuel config lvm (ok (some e), s) = some (give_up e s)
  after_discovery fuel config lvm (fail e, s) = some (fail e, s)
  after_discovery fuel config lvm (panic p, s) = some (panic p, s)

  -- The branch for a resource that is not being deleted.
  unfoldable pub ensure : ℕ → Config → State P W → Option (Outcome Answer × State P W)
  unfolding keep initialize_vg
  ensure fuel config s =
      let ((lvm, err), w) = LvmClient.vg h.client (get_name_on_node P (s.vg)) (s.world) in
      let discovered = record s { world = w } in
      let created = as_value initialize_vg discovered in
      after_discovery fuel config lvm
        (if not_found err (LvmTypes.vg_not_found P.lvm) then created else (ok err, discovered))

  -- The resource in memory is dropped at the end.
  abbrev pub world_of : Option (Outcome Answer × State P W) → Option (Outcome Answer × W)
  world_of none = none
  world_of (some (r, s)) = some (r, s.world)

  -- A resource of this node.
  abbrev pub handle : ℕ → Config → Resource P → Option ℤ → W → Option (Outcome Answer × W)
  handle fuel config vg none w = world_of (ensure fuel config (record { vg = vg; world = w }))
  handle fuel config vg (some timestamp) w = some (remove vg timestamp w)

  -- What `r.Client.Get` returned.
  abbrev pub after_get : ℕ → Config → Outcome (Resource P) × W → Option (Outcome Answer × W)
  after_get fuel config (ok vg, w) =
      let mine = handle fuel config vg vg.meta.deletion_timestamp w in
      if config.node_name == vg.spec.node_name then mine else some (ok (no_result, none), w)
  after_get fuel config (fail e, w) =
      some (ok (no_result, (if h.is_not_found e then none else some e)), w)
  after_get fuel config (panic p, w) = some (panic p, w)

  -- `Reconcile`; `none` means that the fuel of `sync` ran out.
  unfoldable pub reconcile : ℕ → Config → String × String → W → Option (Outcome Answer × W)
  unfolding ensure remove
  reconcile fuel config request w = after_get fuel config (h.get request w)
