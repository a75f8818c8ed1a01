-- ===== src/Controller/Reconcile/Rounds.antt =====
-- The rounds that leave the host as it is.
use topovgm.Prelude.{
  ℕ, suc, String, ◌≡◌, refl, ap, ◌∙◌, true, false, Option, none, some, List, [], ◌∷◌, ◌==◌,
  string_eq,
}
use topovgm.Go.{
  ⊤, Error, wrapped, Outcome, ok, fail, panic, M, join, pure, as_value, ◌>>=◌, >>=-ok, as_value-ok,
  as_value-fail,
}
use topovgm.Lvm.{LvmTypes, LvmVolumeGroup, LvmPhysicalVolume, LvmClient}
use topovgm.Controller.Platform.{Platform, Resource, Host}
use topovgm.Controller.Convert.{get_name_on_node, get_physical_volume_names}
use topovgm.Controller.Sync.{State, set_default, set_ok, sync}
use topovgm.Controller.Sync.Agreement.{Agrees, run_syncers-Agrees}
use topovgm.Controller.Status.{on_world, sync_status}
use topovgm.Controller.Reconcile.{
  Config, Answer, finalizer, no_result, after_sync, with_finalizers, answer, with_status_error,
  write_status, world_of, finish, sync_and_finish, ensure, keep, handle, reconcile,
}
use topovgm.Controller.Reconcile.Creation.{IsOwned}

module _ (P : Platform) {W : Type 0} (h : Host P W) where
  -- On a host that agrees with the resource, `sync` reads the selected devices and the physical
  -- volumes, runs no command, and returns without an error, with the condition set to synced, if nil
  -- is no error of lost devices.
  pub sync-Agrees :
      (fuel : ℕ) (lvm : LvmVolumeGroup P.lvm) (s : State P W) {desired : List String}
      {pvs : List (LvmPhysicalVolume P.lvm)} {w1 w2 : W}
      → get_physical_volume_names P h (set_default P s.vg) s.world ≡ (ok desired, w1)
      → LvmClient.pvs h.client lvm.name w1 ≡ (ok pvs, w2)
      → Agrees P (set_default P s.vg) lvm desired pvs
      → LvmTypes.is_missing_pvs P.lvm none ≡ false
      → sync P h (suc fuel) (some lvm) s
        ≡ some (ok tt, record { vg = set_ok P (set_default P s.vg); world = w2 })
  unfolding sync join
  sync-Agrees fuel lvm s selected listed agrees nil =
      rw (run_syncers-Agrees P h (set_default P s.vg) lvm s.world selected listed agrees, nil) refl

  module _ (config : Config) (request : String × String) where
    -- What the read of a resource returns that is not this node's to handle: an error that tells that
    -- there is none, or a resource of another node.
    abbrev pub IsSkipped : Outcome (Resource P) → Type 0
    IsSkipped (ok vg) = (config.node_name == vg.spec.node_name) ≡ false
    IsSkipped (fail e) = h.is_not_found e ≡ true
    IsSkipped (panic p) = ⊥

    -- A round for a resource that does not exist, or is another node's, ends without an error and
    -- calls nothing but the read of the resource.
    pub reconcile_skips :
        (fuel : ℕ) (r : Outcome (Resource P)) {w w' : W}
        → h.get request w ≡ (r, w')
        → IsSkipped r
        → reconcile P h fuel config request w ≡ some (ok (no_result, none), w')
    unfolding reconcile
    reconcile_skips fuel (ok vg) got other = rw (got, other) refl
    reconcile_skips fuel (fail e) got gone = rw (got, gone) refl
    reconcile_skips fuel (panic p) got skipped = absurd skipped

    -- What a call that does not panic returns: the error `err`, or nil.
    abbrev pub nil_or : Option Error → Outcome ⊤
    nil_or none = ok tt
    nil_or (some e) = fail e

    as_value-nil_or :
        {S : Type 0} (m : M S ⊤) (s : S) (err : Option Error) {s' : S}
        → m s ≡ (nil_or err, s')
        → as_value m s ≡ (ok err, s')
    as_value-nil_or m s none ran = as_value-ok m s ran
    as_value-nil_or m s (some e) ran = as_value-fail m s ran

    -- The answer of a round: without an error exactly if `Nil` holds, and then the next round comes
    -- after the interval; with an error the result is empty.
    abbrev pub AnswersIf : Type 0 → Answer → Type 0
    AnswersIf Nil (result, none) =
        Nil × (result ≡ record { requeue = false; requeue_after = config.sync_interval })
    AnswersIf Nil (result, some e) = (Nil → ⊥) × (result ≡ no_result)

    abbrev when_failed : (Error → Error) → Option Error → Option Error
    when_failed wrap none = none
    when_failed wrap (some e) = some (wrap e)

    answer_of : Option Error → Option Error → Option Error → Answer
    answer_of err status_err write_err =
        answer config (join (with_status_error err status_err ∷ write_err ∷ []))

    answer_of-AnswersIf :
        (err status_err write_err : Option Error) (wrap : Error → Error)
        → AnswersIf
            ((err ≡ none) × (status_err ≡ none) × (write_err ≡ none))
            (answer_of (when_failed wrap err) status_err write_err)
    unfolding join answer_of
    answer_of-AnswersIf none none none wrap = ((refl, refl, refl), refl)
    answer_of-AnswersIf none none (some e) wrap = (λ n. cc (n.2), refl)
    answer_of-AnswersIf none (some e) none wrap = (λ n. cc (n.1), refl)
    answer_of-AnswersIf none (some e) (some e') wrap = (λ n. cc (n.1), refl)
    answer_of-AnswersIf (some e) none none wrap = (λ n. cc (n.0), refl)
    answer_of-AnswersIf (some e) none (some e') wrap = (λ n. cc (n.0), refl)
    answer_of-AnswersIf (some e) (some e') none wrap = (λ n. cc (n.0), refl)
    answer_of-AnswersIf (some e) (some e') (some e'') wrap = (λ n. cc (n.0), refl)

    finish-answers :
        (lvm : Option (LvmVolumeGroup P.lvm)) (err status_err write_err : Option Error)
        (synced reported : State P W) {w' : W}
        → sync_status P h lvm synced ≡ (nil_or status_err, reported)
        → h.update_status reported.vg reported.world ≡ (nil_or write_err, w')
        → finish P h config lvm err synced
          ≡ (ok (answer_of err status_err write_err), record { vg = reported.vg; world = w' })
    unfolding finish answer_of
    finish-answers lvm err status_err write_err synced reported {w'} ran written =
        let update = on_world P h (h.update_status reported.vg) in
        >>=-ok (as_value (sync_status P h lvm))
          (λ status_err. write_status P h >>= λ write_err.
            pure (answer config (join (with_status_error err status_err ∷ write_err ∷ []))))
          synced (as_value-nil_or (sync_status P h lvm) synced status_err ran)
        ∙ >>=-ok (write_status P h)
            (λ write_err.
              pure (answer config (join (with_status_error err status_err ∷ write_err ∷ []))))
            reported
            (as_value-nil_or update reported write_err
              (ap (λ out. (out.0, record { vg = reported.vg; world = out.1 })) written))

    after_sync-finish :
        (lvm : Option (LvmVolumeGroup P.lvm)) (err : Option Error) (s : State P W)
        → after_sync P h config lvm (nil_or err, s)
          ≡ finish P h config lvm
              (when_failed (wrapped "failed to sync volume group with lvm2") err)
              s
    after_sync-finish lvm none s = refl
    after_sync-finish lvm (some e) s = refl

    sync_and_finish-returned :
        (fuel : ℕ) (lvm : Option (LvmVolumeGroup P.lvm)) (s : State P W) {r : Outcome ⊤}
        {synced : State P W}
        → sync P h fuel lvm s ≡ some (r, synced)
        → sync_and_finish P h fuel config lvm s ≡ some (after_sync P h config lvm (r, synced))
    sync_and_finish-returned fuel lvm s ran = rw (ran, sync_and_finish) refl

    ensure-keep :
        (fuel : ℕ) (vg : Resource P) (lvm : LvmVolumeGroup P.lvm) (w1 w2 : W)
        → LvmClient.vg h.client (get_name_on_node P vg) w1 ≡ ((some lvm, none), w2)
        → ensure P h fuel config (record { vg = vg; world = w1 })
          ≡ keep P h fuel config (some lvm) (record { vg = vg; world = w2 })
    unfolding ensure
    ensure-keep fuel vg lvm w1 w2 looked = rw looked refl

    keep-syncs :
        (fuel : ℕ) (vg : Resource P) (lvm : Option (LvmVolumeGroup P.lvm)) (w : W) {r : Outcome ⊤}
        {synced : State P W} {finalizers : List String}
        → P.add_finalizer vg.meta.finalizers finalizer ≡ (finalizers, false)
        → sync P h fuel lvm (record { vg = with_finalizers P vg finalizers; world = w })
          ≡ some (r, synced)
        → keep P h fuel config lvm (record { vg = vg; world = w })
          ≡ some (after_sync P h config lvm (r, synced))
    unfolding keep
    keep-syncs fuel vg lvm w present ran = simp present (sync_and_finish-returned fuel lvm _ ran)

    -- A round for an owned resource with the finalizer, whose volume group is on the host, calls
    -- `sync`, `syncStatus` and the write of the status in this order, each on what the one before it
    -- left and whether that failed or not, if none of them panics. It ends in the world that the write
    -- left, and returns no error exactly if none of the three did: then it asks for the next round
    -- after the interval, and else the result is empty.
    pub reconcile_syncs :
        (fuel : ℕ) {vg : Resource P} {lvm : LvmVolumeGroup P.lvm} {w w1 w2 w' : W}
        {finalizers : List String} {synced reported : State P W}
        (err status_err write_err : Option Error)
        → IsOwned P h config request w vg w1
        → LvmClient.vg h.client (get_name_on_node P vg) w1 ≡ ((some lvm, none), w2)
        → P.add_finalizer vg.meta.finalizers finalizer ≡ (finalizers, false)
        → sync P h fuel (some lvm) (record { vg = with_finalizers P vg finalizers; world = w2 })
          ≡ some (nil_or err, synced)
        → sync_status P h (some lvm) synced ≡ (nil_or status_err, reported)
        → h.update_status reported.vg reported.world ≡ (nil_or write_err, w')
        → (a : Answer) × (reconcile P h fuel config request w ≡ some (ok a, w'))
          × AnswersIf ((err ≡ none) × (status_err ≡ none) × (write_err ≡ none)) a
    unfolding reconcile
    reconcile_syncs fuel {vg} {lvm} {w1 = w1} {w2 = w2} {synced = synced} {reported} err status_err
          write_err owned looked present ran reports written =
        let wrap = wrapped "failed to sync volume group with lvm2" in
        (
          answer_of (when_failed wrap err) status_err write_err,
          simp (owned.got, owned.node)
              (ap (λ deleted. handle P h fuel config vg deleted w1) owned.kept
                ∙ ap (world_of P h) (
                    ensure-keep fuel vg lvm w1 w2 looked
                    ∙ keep-syncs fuel vg (some lvm) w2 present ran
                    ∙ ap some (
                        after_sync-finish (some lvm) err synced
                        ∙ finish-answers (some lvm) (when_failed wrap err) status_err write_err
                            synced reported reports written))),
          answer_of-AnswersIf err status_err write_err wrap,
        )
