-- ===== src/Selector/Quantity.antt =====
-- What the selector takes from k8s.io/apimachinery/pkg/api/resource.
use Prim.Native.Nat.{Ordering}
use topovgm.Prelude.{String}
use topovgm.Prelude.Int.{ℤ}
use topovgm.Go.{Outcome}

pub record Quantities : Type 1 where
  pub Quantity : Type 0
  -- `resource.ParseQuantity`
  pub parse : String → Outcome Quantity
  -- `resource.NewQuantity(value, resource.DecimalSI)`
  pub new : ℤ → Quantity
  -- `a.Cmp(b)`, where 1, 0 and -1 are `gt`, `eq` and `lt`.
  pub cmp : Quantity → Quantity → Ordering
