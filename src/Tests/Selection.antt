-- ===== src/Tests/Selection.antt =====
-- Requirements, terms and selectors on three devices.
use topovgm.Go.Slices.Laws.{IsStrict}
use topovgm.Prelude.{
  false, ◌||◌, ◌==◌, String, ◌≡◌, refl, true, List, [], ◌∷◌, ◌++◌, string_eq, contains, inl, arith,
}
use topovgm.Go.{⊤, ok, panic, M, bind, to_lower, compact, sort}
use topovgm.Api.Selector.{
  LsblkSelectorRequirement, PvSelectorTerm, op_in, op_exists, op_does_not_exist, op_gt,
  other_operator,
}
use topovgm.Lsblk.{
  BlockDevice, Column, column_path, Any, string, float64, entry, nil, get, get_string, children,
  recursive_block_devices,
}
use topovgm.Lsblk.Device.Walk.{recursive_block_devices-children}
use topovgm.Selector.Requirement.{matches_lsblk_requirement}
use topovgm.Selector.Requirement.Laws.{matches_in_panics, matches_gt_zero}
use topovgm.Selector.Devices.{columns_of, select, selector_keys, devices_matching_selector}
use topovgm.Lsblk.Command.{lsblk_args}
use topovgm.Lsblk.Columns.{named_columns, admitted_keys}
use topovgm.Lsblk.Columns.Laws.{split, value_in, row_device, get-row_device}
use topovgm.Selector.Devices.Columns.{lsblk_args-columns_of}
use topovgm.Selector.Devices.Laws.{
  Selects, devices_matching_selector-Selects, empty_term_selects_all,
}
use topovgm.Selector.Devices.Operators.{other_operator_selects_none}
use topovgm.Tests.Node.{quantities}
use topovgm.Tests.Inputs.{device, disk, loops, loop_devices}

abbrev run_lsblk : List Column → M ⊤ (List BlockDevice)
run_lsblk columns w = (ok loop_devices, w)

devices_matching_selector-Selects_example :
    Selects quantities run_lsblk (loops ∷ []) tt ("/dev/loop0" ∷ "/dev/loop1" ∷ []) tt
unfolding devices_matching_selector recursive_block_devices select matches_lsblk_requirement get
    string_eq get_string to_lower compact sort
devices_matching_selector-Selects_example =
    devices_matching_selector-Selects quantities run_lsblk loops [] tt refl

type_admitted : contains admitted_keys "TYPE" ≡ true
unfolding admitted_keys string_eq
type_admitted = refl

lsblk_args-columns_of_example :
    (option : String) × (lsblk_args (columns_of (loops ∷ []))
      ≡ "--json" ∷ "--bytes" ∷ "-o" ∷ option ∷ [])
    × (split option ≡ columns_of (loops ∷ []))
    × IsStrict (columns_of (loops ∷ []))
    × ((c : Column)
        → contains (columns_of (loops ∷ [])) c
          ≡ (c == column_path || contains (selector_keys (loops ∷ [])) c))
lsblk_args-columns_of_example =
    lsblk_args-columns_of (loops ∷ []) (λ k m. ground (arith, type_admitted))

abbrev row : List (Column × Any)
row = ("NAME", string "sda") ∷ ("MIN-IO", float64 "512") ∷ []

get-row_device_example : get (row_device row) "MIN-IO" ≡ value_in row "MIN-IO"
unfolding named_columns string_eq
get-row_device_example = get-row_device row "MIN-IO" (refl, (refl, tt)) refl

abbrev anything : PvSelectorTerm
anything = record { match_lsblk = [] }

abbrev all_paths : List String
all_paths = "/dev/loop1" ∷ "/dev/sda" ∷ "/dev/loop0" ∷ []

empty_term_selects_all_example : contains all_paths "/dev/sda" ≡ true
unfolding select matches_lsblk_requirement get string_eq get_string to_lower
empty_term_selects_all_example =
    empty_term_selects_all quantities run_lsblk [] loop_devices disk "/dev/sda"
      (device "/dev/loop1" "loop" ∷ []) (device "/dev/loop0" "loop" ∷ []) refl refl refl

abbrev not_loops : LsblkSelectorRequirement
not_loops = record { key = "TYPE"; operator = other_operator "NotIn"; values = "loop" ∷ [] }

other_operator_selects_none_example : ◌≡◌ {A = List String} [] []
unfolding select matches_lsblk_requirement get string_eq get_string to_lower
other_operator_selects_none_example =
    other_operator_selects_none quantities (record { match_lsblk = not_loops ∷ [] }) loop_devices
      (inl ("NotIn", refl)) refl

abbrev has_children : LsblkSelectorRequirement
has_children = record { key = "children"; operator = op_exists; values = [] }

abbrev has_no_children : LsblkSelectorRequirement
has_no_children = record { key = "children"; operator = op_does_not_exist; values = [] }

-- A device that is mounted nowhere.
abbrev unmounted : BlockDevice
unmounted = entry "mountpoint" nil (device "/dev/sdb" "disk")

abbrev mounted : LsblkSelectorRequirement
mounted = record { key = "MOUNTPOINT"; operator = op_in; values = "/" ∷ [] }

matches_in_panics_example :
    matches_lsblk_requirement quantities unmounted mounted ≡ panic "interface conversion"
unfolding get to_lower string_eq
matches_in_panics_example =
    matches_in_panics quantities unmounted mounted {val = nil} refl refl (λ t. t) (λ e. cc)

-- A device of 2000 bytes is not above the 1000 that the quantity stands for.
abbrev sized : BlockDevice
sized = entry "size" (float64 "2000") (device "/dev/sdc" "disk")

abbrev above : LsblkSelectorRequirement
above = record { key = "SIZE"; operator = op_gt; values = "1k" ∷ [] }

matches_gt_zero_example : matches_lsblk_requirement quantities sized above ≡ ok false
unfolding get to_lower string_eq
matches_gt_zero_example = matches_gt_zero quantities sized above refl refl tt refl refl

recursive_block_devices-children_example : recursive_block_devices (disk ∷ []) ≡ (
    bind
      (bind (children disk) recursive_block_devices)
      λ below. bind (recursive_block_devices []) λ others. ok (disk ∷ (below ++ others)))
recursive_block_devices-children_example = recursive_block_devices-children disk []
