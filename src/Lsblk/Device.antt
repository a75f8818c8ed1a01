-- ===== src/Lsblk/Device.antt =====
-- `BlockDevice`, a decoded JSON object, with its accessors and the walk over nested devices.
pub mod Walk
use topovgm.Prelude.{
  String, Bool, true, false, Option, none, some, List, [], ◌∷◌, ◌++◌, ◌==◌, string_eq,
  if◌then◌else◌,
}
use topovgm.Prelude.Int.{ℤ}
use topovgm.Go.{Outcome, ok, panic, bind, to_lower}

-- The dynamic types that a value of type `any` has here. `encoding/json` decodes a number into a
-- `float64`, never an `int`; of a `float64` only its text is kept.
mutual
  pub data Any : Type 0 where
    nil : Any
    bool : Bool → Any
    float64 : String → Any
    int : ℤ → Any
    string : String → Any
    array : Anys → Any
    object : BlockDevice → Any

  -- `[]any`
  pub data Anys : Type 0 where
    last : Anys
    next : Any → Anys → Anys

  -- `map[string]any`, each key once.
  pub data BlockDevice : Type 0 where
    no_entry : BlockDevice
    entry : String → Any → BlockDevice → BlockDevice

abbrev pub Column : Type 0
Column = String

abbrev pub column_path : Column
column_path = "PATH"

-- `dev[key]`
unfoldable pub lookup_key : String → BlockDevice → Option Any
lookup_key key no_entry = none
lookup_key key (entry k v dev) = if key == k then some v else lookup_key key dev

unfoldable pub get : BlockDevice → Column → Option Any
unfolding lookup_key
get dev col = lookup_key (to_lower col) dev

abbrev as_string : Any → Outcome (String × Bool)
as_string (string s) = ok (s, true)
as_string _ = panic "interface conversion"

-- `GetString`. The assertion `val.(string)` panics at a value of another type, null included.
unfoldable pub get_string : BlockDevice → Column → Outcome (String × Bool)
get_string dev col = elim (get dev col) [ none ↦ ok ("", false) | some val ↦ as_string val ]

-- `t.(map[string]any)`
abbrev as_device : Any → Outcome BlockDevice
as_device (object dev) = ok dev
as_device _ = panic "interface conversion"

-- The call of `utils.Map` in `Children`.
as_devices : Anys → Outcome (List BlockDevice)
as_devices last = ok []
as_devices (next t ts) = bind (as_device t) λ dev. bind (as_devices ts) λ devs. ok (dev ∷ devs)

abbrev as_children : Any → Outcome (List BlockDevice)
as_children (array ts) = as_devices ts
as_children _ = panic "interface conversion"

unfoldable pub children : BlockDevice → Outcome (List BlockDevice)
unfolding lookup_key as_devices
children dev = elim (lookup_key "children" dev) [ none ↦ ok [] | some val ↦ as_children val ]

-- `RecursiveBlockDevices(dev.Children())`, by recursion on the nesting of the JSON value.
mutual
  descendants : BlockDevice → Outcome (List BlockDevice)
  descendants no_entry = ok []
  descendants (entry k v dev) =
      let here = descendants_of_value v in
      let later = descendants dev in if "children" == k then here else later

  descendants_of_value : Any → Outcome (List BlockDevice)
  descendants_of_value (array ts) = descendants_of_values ts
  descendants_of_value _ = panic "interface conversion"

  -- The values are the children: each device, then what lies below it, then the next ones.
  descendants_of_values : Anys → Outcome (List BlockDevice)
  descendants_of_values last = ok []
  descendants_of_values (next (object dev) ts) =
      bind (descendants dev)
        λ below. bind (descendants_of_values ts) λ others. ok (dev ∷ (below ++ others))
  descendants_of_values (next _ ts) = panic "interface conversion"

-- `RecursiveBlockDevices`
unfoldable pub recursive_block_devices : List BlockDevice → Outcome (List BlockDevice)
unfolding descendants
recursive_block_devices [] = ok []
recursive_block_devices (dev ∷ devices) =
    bind (descendants dev)
      λ below. bind (recursive_block_devices devices) λ others. ok (dev ∷ (below ++ others))
