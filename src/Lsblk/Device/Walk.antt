-- ===== src/Lsblk/Device/Walk.antt =====
-- The walk over nested devices does what the source's recursion over `Children()` says.
use topovgm.Prelude.{
  String, List, ◌∷◌, ◌++◌, ◌≡◌, refl, sym, ap, ◌∙◌, inl, inr, Bool-cases, arith, ◌==◌, string_eq,
}
use topovgm.Go.{⊤, Outcome, ok, fail, panic, bind}
use topovgm.Lsblk.Device.{
  Any, nil, array, object, Anys, last, next, BlockDevice, no_entry, entry, lookup_key, as_devices,
  as_children, children, descendants, descendants_of_value, descendants_of_values,
  recursive_block_devices,
}

-- A value, or the panic of a failed type assertion.
abbrev CastsOnly : {A : Type 0} → Outcome A → Type 0
CastsOnly (ok _) = ⊤
CastsOnly (fail _) = ⊥
CastsOnly (panic p) = p ≡ "interface conversion"

bind-CastsOnly :
    {A B : Type 0} (r : Outcome A) (f : A → Outcome B)
    → CastsOnly r
    → ((a : A) → CastsOnly (f a))
    → CastsOnly (bind r f)
bind-CastsOnly (ok a) f h k = k a
bind-CastsOnly (fail e) f h k = h
bind-CastsOnly (panic p) f h k = h

bind-panic :
    {A B : Type 0} (r : Outcome A) (p : String)
    → CastsOnly r
    → p ≡ "interface conversion"
    → (bind {B = B} r λ _. panic p) ≡ panic p
bind-panic (ok a) p h e = refl
bind-panic (fail e) p h _ = absurd h
bind-panic (panic q) p h e = ap panic (h ∙ sym e)

mutual
  unfolding descendants

  descendants-CastsOnly : (dev : BlockDevice) → CastsOnly (descendants dev)
  descendants-CastsOnly no_entry = tt
  descendants-CastsOnly (entry k v dev) =
      ground (arith, descendants_of_value-CastsOnly v, descendants-CastsOnly dev)

  descendants_of_value-CastsOnly : (v : Any) → CastsOnly (descendants_of_value v)
  descendants_of_value-CastsOnly (array ts) = descendants_of_values-CastsOnly ts
  descendants_of_value-CastsOnly nil = refl
  descendants_of_value-CastsOnly _ = refl

  descendants_of_values-CastsOnly : (ts : Anys) → CastsOnly (descendants_of_values ts)
  descendants_of_values-CastsOnly last = tt
  descendants_of_values-CastsOnly (next (object dev) ts) =
      bind-CastsOnly _ _ (descendants-CastsOnly dev)
        λ below. bind-CastsOnly _ _ (descendants_of_values-CastsOnly ts) λ others. tt
  descendants_of_values-CastsOnly (next nil ts) = refl
  descendants_of_values-CastsOnly (next _ ts) = refl

as_devices-CastsOnly : (ts : Anys) → CastsOnly (as_devices ts)
unfolding as_devices
as_devices-CastsOnly last = tt
as_devices-CastsOnly (next (object dev) ts) = ground (arith, as_devices-CastsOnly ts)
as_devices-CastsOnly (next nil ts) = refl
as_devices-CastsOnly (next _ ts) = refl

walk_step :
    (dev : BlockDevice) (s t : Outcome (List BlockDevice))
    → CastsOnly s
    → t ≡ bind s recursive_block_devices
    → (bind (descendants dev) λ below. bind t λ others. ok (dev ∷ (below ++ others)))
      ≡ bind (bind s λ devs. ok (dev ∷ devs)) recursive_block_devices
unfolding recursive_block_devices
walk_step dev (ok devs) t h e = rw e
walk_step dev (fail x) t h e = absurd h
walk_step dev (panic p) t h e = rw e (bind-panic (descendants dev) p (descendants-CastsOnly dev) h)

-- The values below `children` are cast, and then walked.
descendants_of_values-as_devices :
    (ts : Anys) → descendants_of_values ts ≡ bind (as_devices ts) recursive_block_devices
unfolding descendants as_devices
descendants_of_values-as_devices last = unfold recursive_block_devices in refl
descendants_of_values-as_devices (next (object dev) ts) =
    walk_step dev (as_devices ts) _ (as_devices-CastsOnly ts) (descendants_of_values-as_devices ts)
descendants_of_values-as_devices (next nil ts) = refl
descendants_of_values-as_devices (next _ ts) = refl

descendants_of_value-as_children :
    (v : Any) → descendants_of_value v ≡ bind (as_children v) recursive_block_devices
unfolding descendants
descendants_of_value-as_children (array ts) = descendants_of_values-as_devices ts
descendants_of_value-as_children nil = refl
descendants_of_value-as_children _ = refl

descendants-children :
    (dev : BlockDevice) → descendants dev ≡ bind (children dev) recursive_block_devices
unfolding descendants children recursive_block_devices
descendants-children no_entry = refl
descendants-children (entry k v dev) = elim (Bool-cases ("children" == k)) [
  | inl e ↦ rw (e, children, lookup_key) (descendants_of_value-as_children v)
  | inr e ↦ rw (e, children, lookup_key) (descendants-children dev)
]

-- The walk over a list that is not empty is the source's recursion: the first device, then the walk
-- over its `Children()`, then the walk over the devices after it. Where one of these panics, the
-- walk does.
pub recursive_block_devices-children :
    (dev : BlockDevice) (devices : List BlockDevice)
    → recursive_block_devices (dev ∷ devices) ≡ (
        bind
          (bind (children dev) recursive_block_devices)
          λ below. bind (recursive_block_devices devices) λ others. ok (dev ∷ (below ++ others)))
recursive_block_devices-children dev devices =
    rw (← descendants-children dev) (unfold recursive_block_devices in refl)
