-- ===== src/Lsblk/Columns/Laws.antt =====
-- Columns on the command line of `lsblk` and in its output.
use Prim.Native.Char.{Char, char, code}
use Prim.Native.String.{[] as end, ◌∷◌ as ◌∶◌}
use text.Mathlib.TextLemmas.{nil-append, cons-append}
use topovgm.Prelude.{
  String, ◌<>◌, ◌≡◌, refl, ◌∙◌, ap, Bool, true, false, not, ◌&&◌, ◌||◌, ◌==◌, string_eq, contains,
  Option, none, some, List, [], ◌∷◌, map, if◌then◌else◌, arith,
}
use topovgm.Go.{leb, to_lower}
use topovgm.Lsblk.Device.{Column, column_path, Any, BlockDevice, no_entry, entry, get, lookup_key}
use topovgm.Lsblk.Command.{join_columns}
use topovgm.Lsblk.Columns.{named_columns, admitted_keys}

is_comma : Char → Bool
is_comma c = leb b',' (code c) && leb (code c) b','

has_comma : String → Bool
has_comma end = false
has_comma (c ∶ s) = is_comma c || has_comma s

prepend : Char → List String → List String
prepend c [] = (c ∶ end) ∷ []
prepend c (w ∷ ws) = (c ∶ w) ∷ ws

-- The parts of a text between its commas, as `lsblk` reads the argument of `-o`.
pub split : String → List String
unfolding prepend is_comma
split end = "" ∷ []
split (c ∶ s) = let rest = split s in if is_comma c then "" ∷ rest else prepend c rest

split-lacking : (s : String) → has_comma s ≡ false → split s ≡ s ∷ []
unfolding split has_comma
split-lacking end h = refl
split-lacking (c ∶ s) h = ground (arith, split-lacking s)

comma-append : (t : String) → "," <> t ≡ char b',' tt ∶ t
comma-append t = cons-append (char b',' tt) end t ∙ ap (λ u. char b',' tt ∶ u) (nil-append t)

split-comma : (s t : String) → has_comma s ≡ false → split (s <> ("," <> t)) ≡ s ∷ split t
unfolding split has_comma
split-comma end t h = rw (nil-append, comma-append)
split-comma (c ∶ s) t h = rw (cons-append) (ground (arith, split-comma s t))

-- No column holds a comma.
abbrev LackComma : List Column → Type 0
LackComma [] = Unit
LackComma (c ∷ cs) = (has_comma c ≡ false) × LackComma cs

split-join_columns :
    (c : Column) (cs : List Column) → LackComma (c ∷ cs) → split (join_columns (c ∷ cs)) ≡ c ∷ cs
split-join_columns c [] h = split-lacking c h.0
split-join_columns c (d ∷ cs) h =
    split-comma c (join_columns (d ∷ cs)) h.0 ∙ ap (λ cs. c ∷ cs) (split-join_columns d cs h.1)

all_lack : List Column → Bool
all_lack [] = true
all_lack (c ∷ cs) = not (has_comma c) && all_lack cs

has_comma-contains :
    (cs : List Column) (c : Column)
    → all_lack cs ≡ true
    → contains cs c ≡ true
    → has_comma c ≡ false
unfolding all_lack
has_comma-contains [] c a h = ground arith
has_comma-contains (d ∷ cs) c a h = ground (arith, has_comma-contains cs c)

named_columns-lack : all_lack named_columns ≡ true
unfolding all_lack named_columns has_comma is_comma
named_columns-lack = refl

LackComma-named :
    (cs : List Column)
    → ((c : Column) → contains cs c ≡ true → contains named_columns c ≡ true)
    → LackComma cs
LackComma-named [] h = tt
LackComma-named (c ∷ cs) h = (
  has_comma-contains named_columns c named_columns-lack (h c (ground arith)),
  LackComma-named cs (λ d m. h d (ground arith)),
)

-- Splitting the joined columns at the commas gives them back, if there are any and all are named.
pub split-named :
    (cs : List Column) (c : Column)
    → contains cs c ≡ true
    → ((c : Column) → contains cs c ≡ true → contains named_columns c ≡ true)
    → split (join_columns cs) ≡ cs
split-named [] c m h = ground arith
split-named (d ∷ cs) c m h = split-join_columns d cs (LackComma-named (d ∷ cs) h)

pub column_path-named : contains named_columns column_path ≡ true
unfolding named_columns string_eq
column_path-named = refl

pub admitted_keys-named :
    (k : Column) → contains admitted_keys k ≡ true → contains named_columns k ≡ true
unfolding named_columns admitted_keys
admitted_keys-named k h = h

-- Lower case texts tell the named columns apart.
distinct : List String → Bool
distinct [] = true
distinct (s ∷ ts) = not (contains ts s) && distinct ts

contains-map :
    (cs : List Column) (c : Column)
    → contains cs c ≡ true
    → contains (map to_lower cs) (to_lower c) ≡ true
contains-map [] c h = ground arith
contains-map (d ∷ cs) c h = ground (arith, contains-map cs c)

distinct-map :
    (cs : List Column) (c d : Column)
    → distinct (map to_lower cs) ≡ true
    → contains cs c ≡ true
    → contains cs d ≡ true
    → to_lower c ≡ to_lower d
    → c ≡ d
unfolding distinct
distinct-map [] c d u m n e = ground arith
distinct-map (x ∷ cs) c d u m n e =
    ground (arith, distinct-map cs c d, contains-map cs c, contains-map cs d)

named_columns-distinct : distinct (map to_lower named_columns) ≡ true
unfolding distinct named_columns to_lower string_eq
named_columns-distinct = refl

to_lower-injective :
    (c d : Column)
    → contains named_columns c ≡ true
    → contains named_columns d ≡ true
    → to_lower c ≡ to_lower d
    → c ≡ d
to_lower-injective c d = distinct-map named_columns c d named_columns-distinct

-- What a column holds in a row of values.
pub value_in : List (Column × Any) → Column → Option Any
value_in [] c = none
value_in ((d, v) ∷ row) c = let rest = value_in row c in if c == d then some v else rest

-- A device as `lsblk --json` prints it: the values under the lower case names of their columns.
pub row_device : List (Column × Any) → BlockDevice
row_device [] = no_entry
row_device ((c, v) ∷ row) = entry (to_lower c) v (row_device row)

abbrev pub AreNamed : List (Column × Any) → Type 0
AreNamed [] = Unit
AreNamed ((c, v) ∷ row) = (contains named_columns c ≡ true) × AreNamed row

-- Reading a named column of a printed device gives the value that was printed in it, or none if the
-- device has no value there, if all its columns are named columns.
pub get-row_device :
    (row : List (Column × Any)) (c : Column)
    → AreNamed row
    → contains named_columns c ≡ true
    → get (row_device row) c ≡ value_in row c
unfolding get row_device value_in lookup_key
get-row_device [] c named m = refl
get-row_device ((d, v) ∷ row) c named m =
    ground (arith, get-row_device row c, to_lower-injective c d)
