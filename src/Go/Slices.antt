-- ===== src/Go/Slices.antt =====
-- `slices.Sort` and `slices.Compact` on texts. Go compares texts by their bytes, which is the order
-- of `compare`. Every way to sort texts gives the same list, so this one inserts.
pub mod Order
pub mod Laws
use Prim.Native.Nat.{Ordering}
use Prim.Native.String.{compare}
use topovgm.Prelude.{String, Bool, true, false, List, [], ◌∷◌, ◌==◌, string_eq, if◌then◌else◌}

abbrev pub before : String → String → Bool
before s t = elim (compare s t) [ Ordering.gt ↦ false | _ ↦ true ]

insert : String → List String → List String
insert s [] = s ∷ []
insert s (t ∷ ts) = let rest = insert s ts in if before s t then s ∷ (t ∷ ts) else t ∷ rest

unfoldable pub sort : List String → List String
unfolding insert
sort [] = []
sort (s ∷ ts) = insert s (sort ts)

-- Of equal neighbours the first is kept.
unfoldable pub compact : List String → List String
compact [] = []
compact (s ∷ []) = s ∷ []
compact (s ∷ (t ∷ ts)) = let rest = compact (t ∷ ts) in if s == t then rest else s ∷ rest
