-- ===== src/Selector/Requirement.antt =====
-- `matchesLSBLKRequirement`: one requirement against one block device.
pub mod Laws
use Prim.Native.Nat.{Ordering}
use topovgm.Prelude.{
  String, ◌<>◌, Bool, true, false, Option, none, some, List, [], ◌∷◌, ◌==◌, string_eq,
  if◌then◌else◌,
}
use topovgm.Prelude.Int.{ℤ, pos}
use topovgm.Go.{Error, message, wrapped, Outcome, ok, fail, panic, bind, map_error}
use topovgm.Api.Selector.{
  LsblkSelectorRequirement, PvSelectorOperator, op_in, op_exists, op_does_not_exist, op_gt,
  other_operator,
}
use topovgm.Lsblk.{Any, int, BlockDevice, Column, get, get_string}
use topovgm.Selector.Quantity.{Quantities}

abbrev pub present : Option Any → Bool
present none = false
present (some _) = true

abbrev absent : Option Any → Bool
absent none = true
absent (some _) = false

-- The loop of `In`: the column is read again for each value, and the first equal one ends it.
any_value : BlockDevice → Column → List String → Outcome Bool
any_value dev key [] = ok false
any_value dev key (v ∷ values) =
    let rest = any_value dev key values in
    bind (get_string dev key) λ found. if v == found.0 then ok true else rest

-- `requirement.Values[0]`
abbrev first_value : List String → Outcome String
first_value [] = panic "index out of range"
first_value (v ∷ _) = ok v

-- `intFromLSBLK, ok = fromLSBLK.(int)`: zero where the value is not an `int`, and `ok` is not read.
abbrev as_int : Any → ℤ
as_int (int n) = n
as_int _ = pos 0

-- The device's number, or the error of a column that it lacks.
int_from_lsblk : BlockDevice → Column → Outcome ℤ
int_from_lsblk dev key = elim (get dev key) [
  | none ↦
      fail (
        message ("column " <> key <> " with value <nil> cannot be converted to int for comparison"))
  | some found ↦ ok (as_int found)
]

abbrev pub is_greater : Ordering → Bool
is_greater Ordering.gt = true
is_greater _ = false

module _ (qs : Quantities) where
  is_above : BlockDevice → Column → List String → Outcome Bool
  unfolding int_from_lsblk
  is_above dev key values = bind (first_value values) λ v.
      bind (map_error (wrapped "value is not a valid quantity") (qs.parse v))
        λ required. bind (int_from_lsblk dev key) λ n. ok (is_greater (qs.cmp (qs.new n) required))

  by_operator : PvSelectorOperator → BlockDevice → Column → List String → Outcome Bool
  unfolding any_value is_above
  by_operator op_exists dev key values = ok (present (get dev key))
  by_operator op_does_not_exist dev key values = ok (absent (get dev key))
  by_operator op_in dev key values = any_value dev key values
  by_operator op_gt dev key values = is_above dev key values
  by_operator (other_operator _) dev key values = ok false

  -- `matchesLSBLKRequirement`
  unfoldable pub matches_lsblk_requirement : BlockDevice → LsblkSelectorRequirement → Outcome Bool
  unfolding by_operator
  matches_lsblk_requirement dev r = by_operator r.operator dev r.key r.values
