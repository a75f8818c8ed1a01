-- ===== src/Go/Slices/Laws.antt =====
-- Sorted and compacted texts.
use Prim.Native.Nat.{Ordering}
use Prim.Native.String.{compare}
use text.Mathlib.TextEquality.{path_by_compare}
use topovgm.Prelude.{
  String, ◌≡◌, ◌≢◌, refl, true, ◌||◌, List, [], ◌∷◌, ◌==◌, string_eq, contains, arith,
}
use topovgm.Go.Slices.{before, insert, sort, compact}
use topovgm.Go.Slices.Order.{compare-gt}

contains-insert :
    (a s : String) (ts : List String) → contains (insert s ts) a ≡ (a == s || contains ts a)
unfolding insert
contains-insert a s [] = refl
contains-insert a s (t ∷ ts) = ground (arith, contains-insert a s ts)

contains-sort : (a : String) (ts : List String) → contains (sort ts) a ≡ contains ts a
unfolding sort
contains-sort a [] = refl
contains-sort a (s ∷ ts) = ground (arith, contains-insert a s (sort ts), contains-sort a ts)

contains-compact : (a : String) (ts : List String) → contains (compact ts) a ≡ contains ts a
unfolding compact
contains-compact a [] = refl
contains-compact a (s ∷ []) = refl
contains-compact a (s ∷ (t ∷ ts)) = ground (arith, contains-compact a (t ∷ ts))

-- `slices.Compact(slices.Sort(ts))` holds the same texts.
pub contains-compact-sort :
    (a : String) (ts : List String) → contains (compact (sort ts)) a ≡ contains ts a
contains-compact-sort a ts = ground (arith, contains-compact a (sort ts), contains-sort a ts)

-- No text stands before one that it is greater than: an adjacent check, which is enough.
abbrev AscendsFrom : String → List String → Type 0
AscendsFrom s [] = Unit
AscendsFrom s (t ∷ ts) = (before s t ≡ true) × AscendsFrom t ts

abbrev Ascends : List String → Type 0
Ascends [] = Unit
Ascends (s ∷ ts) = AscendsFrom s ts

-- Each text is less than the next: an ascending list without repetitions.
abbrev StrictFrom : String → List String → Type 0
StrictFrom s [] = Unit
StrictFrom s (t ∷ ts) = (compare s t ≡ Ordering.lt) × StrictFrom t ts

abbrev pub IsStrict : List String → Type 0
IsStrict [] = Unit
IsStrict (s ∷ ts) = StrictFrom s ts

insert-AscendsFrom :
    (a s : String) (ts : List String)
    → before a s ≡ true
    → AscendsFrom a ts
    → AscendsFrom a (insert s ts)
unfolding insert
insert-AscendsFrom a s [] h k = (h, tt)
insert-AscendsFrom a s (t ∷ ts) h k = ground (arith, compare-gt s t, insert-AscendsFrom t s ts)

insert-Ascends : (s : String) (ts : List String) → Ascends ts → Ascends (insert s ts)
unfolding insert
insert-Ascends s [] h = tt
insert-Ascends s (t ∷ ts) h = ground (arith, compare-gt s t, insert-AscendsFrom t s ts)

sort-Ascends : (ts : List String) → Ascends (sort ts)
unfolding sort
sort-Ascends [] = tt
sort-Ascends (s ∷ ts) = insert-Ascends s (sort ts) (sort-Ascends ts)

abbrev StartsFrom : String → List String → Type 0
StartsFrom s [] = ⊥
StartsFrom s (t ∷ ts) = (s ≡ t) × StrictFrom t ts

StartsFrom-StrictFrom :
    (s t : String) (l : List String) → compare s t ≡ Ordering.lt → StartsFrom t l → StrictFrom s l
StartsFrom-StrictFrom s t [] h k = tt
StartsFrom-StrictFrom s t (u ∷ l) h k = (rw (← k.0) h, k.1)

before_ne : (s t : String) → before s t ≡ true → s ≢ t → compare s t ≡ Ordering.lt
before_ne s t h n = ground (arith, path_by_compare s t)

compact-StartsFrom :
    (s : String) (ts : List String) → AscendsFrom s ts → StartsFrom s (compact (s ∷ ts))
unfolding compact
compact-StartsFrom s [] h = (refl, tt)
compact-StartsFrom s (t ∷ ts) h =
    ground
      (arith, before_ne s t, compact-StartsFrom t ts, StartsFrom-StrictFrom s t (compact (t ∷ ts)))

StartsFrom-IsStrict : (s : String) (l : List String) → StartsFrom s l → IsStrict l
StartsFrom-IsStrict s [] h = tt
StartsFrom-IsStrict s (t ∷ l) h = h.1

compact-IsStrict : (ts : List String) → Ascends ts → IsStrict (compact ts)
compact-IsStrict [] h = unfold compact in tt
compact-IsStrict (s ∷ ts) h = StartsFrom-IsStrict s _ (compact-StartsFrom s ts h)

-- `slices.Compact(slices.Sort(ts))` is strictly ascending.
pub compact-sort-IsStrict : (ts : List String) → IsStrict (compact (sort ts))
compact-sort-IsStrict ts = compact-IsStrict (sort ts) (sort-Ascends ts)
