-- ===== src/Controller/Reconcile/Removal.antt =====
-- A resource that is being deleted: what `Reconcile` does with its finalizer.
use topovgm.Prelude.{String, ◌≡◌, refl, ◌∙◌, ◌⊎◌, inl, inr, true, false, Option, none, some, List}
use topovgm.Prelude.Int.{ℤ, ◌+ℤ◌, ltb_ℤ, wrap64, scale}
use topovgm.Go.{
  ⊤, Error, wrapped, Outcome, ok, fail, panic, M, pure, as_value, returned, >>=-ok, as_value-ok,
  as_value-fail, as_value-panic, >>=-panic,
}
use topovgm.Lvm.{LvmTypes, vg_remove}
use topovgm.Controller.Platform.{Platform, Resource, Host}
use topovgm.Controller.Convert.{get_name_on_node}
use topovgm.Controller.Syncers.{run}
use topovgm.Controller.Reconcile.{
  finalizer, no_result, with_finalizers, drop_finalizer, after_remove, remove,
}

same_error : (e e' : Error) → ◌≡◌ {A = Outcome ⊤} (fail e) (fail e') → e ≡ e'
same_error e e' h = cc

as_value-returned :
    {W : Type 0} (err : Option Error) (m : M W ⊤) (w : W) {v : W}
    → m w ≡ (returned err, v)
    → as_value m w ≡ (ok err, v)
as_value-returned none m w h = as_value-ok m w h
as_value-returned (some e) m w h = as_value-fail m w h

module _ (P : Platform) {W : Type 0} (h : Host P W) (vg : Resource P) (timestamp : ℤ) where
  -- `VGRemove` is called after the clock is read, by force exactly when the time of deletion and the
  -- grace period are in the past, and returns `r`.
  pub record RunsRemove (seconds : ℤ) (w : W) (r : Outcome ⊤) (w' : W) : Type 0 where
    pub grace : vg.meta.deletion_grace_period_seconds ≡ some seconds
    pub read : W
    pub now : ℤ
    pub clock : h.now w ≡ (now, read)
    pub ran :
        run P h
          (vg_remove
            (get_name_on_node P vg)
            (ltb_ℤ (timestamp +ℤ wrap64 (scale 1000000000 seconds)) now))
          read
        ≡ (r, w')

  -- The volume group is removed, or lvm2 did not find it.
  abbrev pub IsGone : Outcome ⊤ → Type 0
  IsGone r = (r ≡ ok tt) ⊎ ((e : Error) × (r ≡ fail e) × (LvmTypes.is_lvm_not_found P.lvm e ≡ true))

  remove-after_remove :
      {seconds : ℤ} {w w' : W} (err : Option Error)
      → RunsRemove seconds w (returned err) w'
      → remove P h vg timestamp w ≡ after_remove P h vg err w'
  unfolding remove
  remove-after_remove {seconds} {w} {w'} err c =
      let command = run P h (
        vg_remove (get_name_on_node P vg)
          (ltb_ℤ (timestamp +ℤ wrap64 (scale 1000000000 seconds)) c.now)) in
      simp (c.grace, c.clock)
        (>>=-ok (as_value command) (after_remove P h vg) c.read
          (as_value-returned err command c.read c.ran))

  pub remove_panics :
      {seconds : ℤ} {w w' : W} {p : String}
      → RunsRemove seconds w (panic p) w'
      → remove P h vg timestamp w ≡ (panic p, w')
  unfolding remove
  remove_panics {seconds} {w} {w'} {p} c =
      let command = run P h (
        vg_remove (get_name_on_node P vg)
          (ltb_ℤ (timestamp +ℤ wrap64 (scale 1000000000 seconds)) c.now)) in
      simp (c.grace, c.clock)
        (>>=-panic (as_value command) (after_remove P h vg) c.read
          (as_value-panic command c.read c.ran))

  -- If `VGRemove` fails for another reason than that lvm2 does not find the volume group, its error is
  -- returned, wrapped, and the resource is not written: it keeps the finalizer.
  pub remove_keeps_finalizer :
      {seconds : ℤ} {w w' : W} {e : Error}
      → RunsRemove seconds w (fail e) w'
      → LvmTypes.is_lvm_not_found P.lvm e ≡ false
      → remove P h vg timestamp w
        ≡ (ok (no_result, some (wrapped "failed to remove volume group" e)), w')
  remove_keeps_finalizer {e = e} c n = remove-after_remove (some e) c ∙ rw n refl

  pub remove-drop_finalizer :
      {seconds : ℤ} {w w' : W} (r : Outcome ⊤)
      → RunsRemove seconds w r w'
      → IsGone r
      → remove P h vg timestamp w ≡ drop_finalizer P h vg w'
  remove-drop_finalizer (ok _) c gone = remove-after_remove none c
  remove-drop_finalizer (fail e) c (inl done) = cc
  remove-drop_finalizer (fail e) c (inr (e', failed, n)) =
      remove-after_remove (some e) c ∙ rw (same_error e e' failed) (rw n refl)
  remove-drop_finalizer (panic p) c (inl done) = cc
  remove-drop_finalizer (panic p) c (inr (e, failed, n)) = cc

  -- Once the volume group is removed, or lvm2 does not find it, the resource is written without the
  -- finalizer if it has it, and if the write succeeds the round ends with no other request.
  pub remove_drops_finalizer :
      {seconds : ℤ} {w w' w'' : W} (r : Outcome ⊤) {finalizers : List String}
      → RunsRemove seconds w r w'
      → IsGone r
      → P.remove_finalizer vg.meta.finalizers finalizer ≡ (finalizers, true)
      → h.update (with_finalizers P vg finalizers) w' ≡ (ok tt, w'')
      → remove P h vg timestamp w ≡ (ok (no_result, none), w'')
  unfolding drop_finalizer
  remove_drops_finalizer {w' = w'} r {finalizers} c gone removed written =
      remove-drop_finalizer r c gone
      ∙ simp removed (
          >>=-ok (as_value (h.update (with_finalizers P vg finalizers)))
            (λ err. pure (no_result, err)) w'
            (as_value-ok (h.update (with_finalizers P vg finalizers)) w' written))
