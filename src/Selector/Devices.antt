-- ===== src/Selector/Devices.antt =====
-- `DevicesMatchingSelector`: the paths of the devices that some term of the selector matches.
pub mod Columns
pub mod Laws
pub mod Terms
pub mod Operators
use topovgm.Prelude.{
  ℕ, zero, suc, ◌+◌, String, ◌<>◌, Bool, true, false, List, [], ◌∷◌, ◌++◌, length, if◌then◌else◌,
}
use Prim.Native.Nat.{compare, Ordering}
use topovgm.Go.{
  Error, message, wrapped, Outcome, ok, fail, bind, map_error, M, pure, lift, wrapping, ◌>>=◌, sort,
  compact,
}
use topovgm.Api.Selector.{
  LsblkSelectorRequirement, PvSelectorTerm, PhysicalVolumeSelector, operator_text,
}
use topovgm.Lsblk.{BlockDevice, Column, column_path, get_string, recursive_block_devices}
use topovgm.Selector.Quantity.{Quantities}
use topovgm.Selector.Requirement.{matches_lsblk_requirement}

abbrev same_count : ℕ → ℕ → Bool
same_count a b = elim (compare a b) [ Ordering.eq ↦ true | _ ↦ false ]

-- The keys of a term's requirements.
abbrev pub keys : List LsblkSelectorRequirement → List Column
keys [] = []
keys (r ∷ rs) = r.key ∷ keys rs

abbrev pub selector_keys : PhysicalVolumeSelector → List Column
selector_keys [] = []
selector_keys (term ∷ selector) = keys term.match_lsblk ++ selector_keys selector

-- The columns that `lsblk` is asked for.
unfoldable pub columns_of : PhysicalVolumeSelector → List Column
columns_of selector = compact (sort (column_path ∷ selector_keys selector))

spaced : List String → String
spaced [] = ""
spaced (v ∷ []) = v
spaced (v ∷ (w ∷ ws)) = v <> " " <> spaced (w ∷ ws)

-- The text of a requirement under `%v`.
shown : LsblkSelectorRequirement → String
unfolding spaced
shown r = "{" <> r.key <> " " <> operator_text r.operator <> " [" <> spaced r.values <> "]}"

abbrev unmatched : LsblkSelectorRequirement → Error → Error
unmatched r = wrapped ("could not match requirement " <> shown r)

module _ (qs : Quantities) where
  -- The loop over a term's requirements, from the count `matches`.
  count_matches : BlockDevice → List LsblkSelectorRequirement → ℕ → Outcome ℕ
  unfolding shown
  count_matches dev [] matches = ok matches
  count_matches dev (r ∷ rs) matches =
      bind (map_error (unmatched r) (matches_lsblk_requirement qs dev r))
        λ matched. count_matches dev rs (if matched then matches + 1 else matches)

  -- `dev.GetString(lsblk.ColumnPath)`; `kname` is empty where the path is missing.
  abbrev path_or_error : String × Bool → Outcome String
  path_or_error (kname, true) = ok kname
  path_or_error (kname, false) = fail (message ("block device " <> kname <> " is missing path"))

  -- The body of the inner loop: the path to append, if the term matches.
  select_device : PvSelectorTerm → BlockDevice → Outcome (List String)
  unfolding count_matches
  select_device term dev = bind (count_matches dev term.match_lsblk 0) λ matches.
      if same_count matches (length term.match_lsblk)
      then bind (get_string dev column_path)
          (λ found. bind (path_or_error found) λ path. ok (path ∷ []))
      else ok []

  select_term : PvSelectorTerm → List BlockDevice → Outcome (List String)
  unfolding select_device
  select_term term [] = ok []
  select_term term (dev ∷ devices) =
      bind (select_device term dev)
        λ here. bind (select_term term devices) λ later. ok (here ++ later)

  -- The nested loops: the paths in the order in which they are appended to `selected`.
  unfoldable pub select : PhysicalVolumeSelector → List BlockDevice → Outcome (List String)
  unfolding select_term
  select [] devices = ok []
  select (term ∷ selector) devices =
      bind (select_term term devices)
        λ here. bind (select selector devices) λ later. ok (here ++ later)

  -- What is done with the devices that `lsblk` lists.
  unfoldable pub paths_among : PhysicalVolumeSelector → List BlockDevice → Outcome (List String)
  paths_among selector found =
      bind (recursive_block_devices found)
        λ devices. bind (select selector devices) λ selected. ok (compact (sort selected))

  -- `DevicesMatchingSelector`, with the variable `runLSBLK` as an argument.
  unfoldable pub devices_matching_selector :
      {W : Type 0}
      → (List Column → M W (List BlockDevice))
      → PhysicalVolumeSelector
      → M W (List String)
  unfolding columns_of paths_among
  devices_matching_selector run_lsblk [] = pure []
  devices_matching_selector run_lsblk (term ∷ selector) = do
    found ←
        wrapping (wrapped "failed to list block devices for selector translation")
          (run_lsblk (columns_of (term ∷ selector)))
    lift (paths_among (term ∷ selector) found)
