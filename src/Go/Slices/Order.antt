-- ===== src/Go/Slices/Order.antt =====
-- The order of texts is total.
use Prim.Native.Nat.{Ordering}
use Prim.Native.String.compare
use Prim.Native.String.{[], ◌∷◌, compare}
use topovgm.Prelude.{String, ◌≡◌, arith}

pub compare-gt : (s t : String) → compare s t ≡ Ordering.gt → compare t s ≡ Ordering.lt
compare-gt [] [] h = cc (h, compare.nil-nil)
compare-gt [] (d ∷ t) h = cc (h, compare.nil-cons d t)
compare-gt (c ∷ s) [] h = compare.nil-cons c s
compare-gt (c ∷ s) (d ∷ t) h =
    ground (arith, compare.cons-cons c d s t, compare.cons-cons d c t s, compare-gt s t)
