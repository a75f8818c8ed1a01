-- ===== src/Selector/Requirement/Laws.antt =====
-- When a requirement matches, and on which devices its check panics or looks at nothing.
use topovgm.Prelude.{
  String, ◌≡◌, ◌≢◌, refl, Bool, not, some, List, [], ◌∷◌, string_eq, contains, arith,
}
use topovgm.Prelude.Int.{pos}
use topovgm.Go.{ok, panic}
use topovgm.Api.Selector.{
  LsblkSelectorRequirement, op_in, op_exists, op_does_not_exist, op_gt, PvSelectorOperator,
}
use topovgm.Lsblk.{Any, nil, int, string, BlockDevice, Column, get, get_string}
use topovgm.Selector.Quantity.{Quantities}
use topovgm.Selector.Requirement.{
  present, any_value, by_operator, is_above, is_greater, int_from_lsblk, matches_lsblk_requirement,
}

-- The dynamic types that `encoding/json` gives to a value: not `int`.
abbrev pub IsJson : Any → Type 0
IsJson (int _) = ⊥
IsJson _ = Unit

abbrev pub IsText : Any → Type 0
IsText (string _) = Unit
IsText _ = ⊥

any_value-contains :
    (dev : BlockDevice) (key : Column) (values : List String) {s : String} {b : Bool}
    → get_string dev key ≡ ok (s, b)
    → any_value dev key values ≡ ok (contains values s)
unfolding any_value
any_value-contains dev key [] h = refl
any_value-contains dev key (v ∷ values) h = ground (arith, any_value-contains dev key values h)

get_string-panics :
    (dev : BlockDevice) (key : Column) (val : Any)
    → get dev key ≡ some val
    → ¬ IsText val
    → get_string dev key ≡ panic "interface conversion"
unfolding get_string
get_string-panics dev key (string s) h n = absurd (n tt)
get_string-panics dev key nil h n = rw (h, get_string)
get_string-panics dev key _ h n = rw (h, get_string)

any_value-panics :
    (dev : BlockDevice) (key : Column) (values : List String)
    → get_string dev key ≡ panic "interface conversion"
    → values ≢ []
    → any_value dev key values ≡ panic "interface conversion"
unfolding any_value
any_value-panics dev key [] h n = absurd (n refl)
any_value-panics dev key (v ∷ values) h n = rw h

int_from_lsblk-zero :
    (dev : BlockDevice) (key : Column) (val : Any)
    → get dev key ≡ some val
    → IsJson val
    → int_from_lsblk dev key ≡ ok (pos 0)
unfolding int_from_lsblk
int_from_lsblk-zero dev key (int n) h j = absurd j
int_from_lsblk-zero dev key nil h j = rw (h, int_from_lsblk)
int_from_lsblk-zero dev key _ h j = rw (h, int_from_lsblk)

module _ (qs : Quantities) (dev : BlockDevice) (r : LsblkSelectorRequirement) where
  matches_at :
      (k : PvSelectorOperator)
      → r.operator ≡ k
      → matches_lsblk_requirement qs dev r ≡ by_operator qs k dev r.key r.values
  unfolding matches_lsblk_requirement
  matches_at k e = rw e

  -- `In` holds of a device exactly when the column's text is one of the values, where a column
  -- that the device lacks counts as the empty text.
  pub matches_in :
      {s : String} {b : Bool}
      → r.operator ≡ op_in
      → get_string dev r.key ≡ ok (s, b)
      → matches_lsblk_requirement qs dev r ≡ ok (contains r.values s)
  unfolding matches_lsblk_requirement
  matches_in e h = rw e (any_value-contains dev r.key r.values h)

  -- `In` panics on a column that is there with a value that is no text, such as null or a Boolean,
  -- if the requirement has any value to compare with.
  pub matches_in_panics :
      {val : Any}
      → r.operator ≡ op_in
      → get dev r.key ≡ some val
      → ¬ IsText val
      → r.values ≢ []
      → matches_lsblk_requirement qs dev r ≡ panic "interface conversion"
  unfolding matches_lsblk_requirement
  matches_in_panics {val} e h n v =
      rw e (any_value-panics dev r.key r.values (get_string-panics dev r.key val h n) v)

  -- `Gt` on a column that is there with a value that `encoding/json` decoded compares the number 0
  -- with the required quantity, whatever the value: the size of the device plays no part.
  pub matches_gt_zero :
      {val : Any} {v : String} {rest : List String} {required : qs.Quantity}
      → r.operator ≡ op_gt
      → get dev r.key ≡ some val
      → IsJson val
      → r.values ≡ v ∷ rest
      → qs.parse v ≡ ok required
      → matches_lsblk_requirement qs dev r ≡ ok (is_greater (qs.cmp (qs.new (pos 0)) required))
  unfolding matches_lsblk_requirement is_above
  matches_gt_zero {val} e h j vs p = rw (e, vs, p, int_from_lsblk-zero dev r.key val h j) refl

module _ (qs : Quantities) (dev : BlockDevice) (r r' : LsblkSelectorRequirement) where
  -- `Exists` and `DoesNotExist` on the same key never fail and answer with opposite values: the first
  -- is true exactly if the device has the column, whatever the column's value and whatever values
  -- the two requirements list.
  pub matches_existence :
      r.operator ≡ op_exists
      → r'.operator ≡ op_does_not_exist
      → r'.key ≡ r.key
      → (b : Bool) × (b ≡ present (get dev r.key))
        × (matches_lsblk_requirement qs dev r ≡ ok b)
        × (matches_lsblk_requirement qs dev r' ≡ ok (not b))
  unfolding matches_lsblk_requirement
  matches_existence e e' k = (present (get dev r.key), refl, rw e, rw (e', k) (ground arith))
