-- ===== src/Selector/Devices/Columns.antt =====
-- The columns that a selector asks `lsblk` for, as they stand on its command line.
use topovgm.Prelude.{
  String, ◌≡◌, refl, sym, ◌∙◌, true, ◌||◌, ◌==◌, string_eq, contains, [], ◌∷◌, arith,
}
use topovgm.Api.Selector.{PhysicalVolumeSelector}
use topovgm.Go.Slices.Laws.{IsStrict, contains-compact-sort, compact-sort-IsStrict}
use topovgm.Lsblk.{Column, column_path}
use topovgm.Lsblk.Command.{join_columns, lsblk_args}
use topovgm.Lsblk.Columns.{named_columns, admitted_keys}
use topovgm.Lsblk.Columns.Laws.{split, split-named, admitted_keys-named, column_path-named}
use topovgm.Selector.Devices.{columns_of, selector_keys}

-- The columns that `lsblk` is asked for: each once, in ascending order, the path and the key of
-- every requirement and no other.
columns_of_lem :
    (selector : PhysicalVolumeSelector)
    → IsStrict (columns_of selector)
      × ((c : Column)
          → contains (columns_of selector) c
            ≡ (c == column_path || contains (selector_keys selector) c))
unfolding columns_of
columns_of_lem selector = (compact-sort-IsStrict _, λ c. contains-compact-sort c _)

-- If the resource definition admits the keys of a selector, the option `-o` of `lsblk`, split at its
-- commas, is the columns asked for: each once, in ascending order, the path and the key of every
-- requirement and no other.
pub lsblk_args-columns_of :
    (selector : PhysicalVolumeSelector)
    → ((k : Column) → contains (selector_keys selector) k ≡ true → contains admitted_keys k ≡ true)
    → (option : String) × (lsblk_args (columns_of selector)
        ≡ "--json" ∷ "--bytes" ∷ "-o" ∷ option ∷ [])
      × (split option ≡ columns_of selector)
      × IsStrict (columns_of selector)
      × ((c : Column)
          → contains (columns_of selector) c
            ≡ (c == column_path || contains (selector_keys selector) c))
lsblk_args-columns_of selector admitted =
    let (strict, holds) = columns_of_lem selector in
    (
      join_columns (columns_of selector),
      refl,
      split-named (columns_of selector) column_path (holds column_path ∙ ground arith)
          (λ c m. named c (sym (holds c) ∙ m)),
      strict,
      holds,
    )
  where
    named :
        (c : Column)
        → (c == column_path || contains (selector_keys selector) c) ≡ true
        → contains named_columns c ≡ true
    named c m = ground (arith, admitted c, admitted_keys-named c, column_path-named)
