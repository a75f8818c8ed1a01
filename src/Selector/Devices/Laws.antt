-- ===== src/Selector/Devices/Laws.antt =====
-- The selection as a whole: which paths it holds, in which order, and for which columns it asks.
use mathlib.Core.Path.{subst}
use topovgm.Prelude.{
  String, ◌≡◌, ◌↔◌, inl, inr, true, List, [], ◌∷◌, ◌++◌, string_eq, contains, arith,
}
use topovgm.Go.{ok, M, lift, wrapping, bind-eq-ok, >>=-eq-ok, wrapping-eq-ok, sort, compact}
use topovgm.Go.Slices.Laws.{IsStrict, contains-compact-sort, compact-sort-IsStrict}
use topovgm.Api.Selector.{PvSelectorTerm, PhysicalVolumeSelector}
use topovgm.Lsblk.{BlockDevice, Column, column_path, get_string, recursive_block_devices}
use topovgm.Selector.Quantity.{Quantities}
use topovgm.Selector.Devices.{columns_of, select, paths_among, devices_matching_selector}
use topovgm.Selector.Devices.Terms.{AnyOf, Picks, contains-select}

module _ (qs : Quantities) {W : Type 0} (run_lsblk : List Column → M W (List BlockDevice)) where
  -- What a successful selection has done and what it returns.
  abbrev pub Selects : PhysicalVolumeSelector → W → List String → W → Type 0
  Selects selector w paths w' =
      (found : List BlockDevice) × (devices : List BlockDevice) × (run_lsblk (columns_of selector) w
        ≡ (ok found, w'))
      × (recursive_block_devices found ≡ ok devices)
      × IsStrict paths
      × ((p : String)
          → (contains paths p ≡ true) ↔ AnyOf (λ term. AnyOf (Picks qs term p) devices) selector)

  paths_among-Selects :
      (selector : PhysicalVolumeSelector) (w : W) (found : List BlockDevice) {paths : List String}
      {w' : W}
      → run_lsblk (columns_of selector) w ≡ (ok found, w')
      → paths_among qs selector found ≡ ok paths
      → Selects selector w paths w'
  unfolding paths_among
  paths_among-Selects selector w found {paths} {w'} ran h =
      let (devices, walked, rest) = bind-eq-ok (recursive_block_devices found) _ h in
      let (selected, chosen, returned) = bind-eq-ok (select qs selector devices) _ rest in
      let same : compact (sort selected) ≡ paths = ground arith in
      subst (λ l. Selects selector w l w') same
        (
          found,
          devices,
          ran,
          walked,
          compact-sort-IsStrict selected,
          λ p. rw (contains-compact-sort p selected) (contains-select qs p selector devices chosen),
        )

  -- A selection, by a selector with at least one term, that returns without an error asked `lsblk`
  -- for the selector's columns and returns each path once, in ascending order: a path is returned
  -- exactly when some listed device, nested ones included, has it and meets every requirement of
  -- some term.
  pub devices_matching_selector-Selects :
      (term : PvSelectorTerm) (selector : PhysicalVolumeSelector) (w : W) {paths : List String}
      {w' : W}
      → devices_matching_selector qs run_lsblk (term ∷ selector) w ≡ (ok paths, w')
      → Selects (term ∷ selector) w paths w'
  unfolding devices_matching_selector
  devices_matching_selector-Selects term selector w {paths} {w'} h =
      let (found, v, ran, listed) =
        >>=-eq-ok (wrapping _ (run_lsblk _))
          (λ found. lift (paths_among qs (term ∷ selector) found)) w h in
      let same : v ≡ w' = ground arith in
      paths_among-Selects (term ∷ selector) w found
        (subst (λ u. run_lsblk (columns_of (term ∷ selector)) w ≡ (ok found, u)) same
          (wrapping-eq-ok _ (run_lsblk _) w ran))
        (ground arith)

  -- A selection by a selector whose first term has no requirements, if it returns without an error,
  -- holds the path of every device.
  pub empty_term_selects_all :
      (rest : PhysicalVolumeSelector) (devices : List BlockDevice) (dev : BlockDevice) (p : String)
      (before after : List BlockDevice) {selected : List String}
      → devices ≡ before ++ (dev ∷ after)
      → get_string dev column_path ≡ ok (p, true)
      → select qs (record { match_lsblk = [] } ∷ rest) devices ≡ ok selected
      → contains selected p ≡ true
  empty_term_selects_all rest devices dev p before after split path h =
      (contains-select qs p _ devices h).1 (inl (rw split (picked before)))
    where
      picked :
          (before : List BlockDevice)
          → AnyOf (Picks qs (record { match_lsblk = [] }) p) (before ++ (dev ∷ after))
      picked [] = inl (tt, path)
      picked (d ∷ before) = inr (picked before)
