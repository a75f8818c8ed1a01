-- ===== src/Api/Copies/Separation.antt =====
-- A deep copy and its original: the same meaning, and no cell in common.
use topovgm.Prelude.{ℕ, suc, ◌<◌, ◌≡◌, refl, ◌≢◌, Option, none, some, List, ◌∷◌, arith}
use topovgm.Api.Copies.Memory.{
  Address, Pointer, nil, at, nil_slice, slice, Copying, deep_copy, pointer_value, pointer_cells,
  copy_slice, slice_value, slice_cells,
}
use topovgm.Api.Copies.Packages.{Packages}
use topovgm.Api.Copies.Selector.{PhysicalVolumeSelector, term, deep_copy_selector}
use topovgm.Api.Copies.Resource.{
  Group, Groups, volume_group, volume_group_list, deep_copy_volume_group,
  deep_copy_volume_group_list_object,
}
use topovgm.Api.Copies.Laws.{
  All, All-weaken, AreNew, AreNew-later, AreNew-cons, IsDeep, pointer-IsDeep, sliced-IsDeep,
}
use topovgm.Api.Copies.Deep.{AreDeep, term-IsDeep, volume_group-IsDeep, volume_group_list-IsDeep}

-- All cells were allocated before the counter came to `next`.
abbrev pub AreAllocated : ℕ → List Address → Type 0
AreAllocated next l = All (λ a. a < next) l

abbrev pub AreDisjoint : List Address → List Address → Type 0
AreDisjoint l m = All (λ a. All (λ b. a ≢ b) m) l

AreNew-AreDisjoint :
    (first last : ℕ) (l m : List Address)
    → AreNew first last l
    → AreAllocated first m
    → AreDisjoint l m
AreNew-AreDisjoint first last l m new old =
    All-weaken (λ a later. All-weaken (λ b earlier. λ e. omega arith) m old) l new.inside

module _ {A V : Type 0} (c : Copying A V) (deep : IsDeep c) where
  deep_copy-Separates :
      (source : Pointer Address A) (next : Address)
      → AreAllocated next (pointer_cells c source)
      → (pointer_value c (deep_copy c source next).0 ≡ pointer_value c source)
        × AreDisjoint (pointer_cells c (deep_copy c source next).0) (pointer_cells c source)
  deep_copy-Separates source next old =
      let (same, new) = pointer-IsDeep c deep source next in
      (same, AreNew-AreDisjoint _ _ _ _ new old)

-- What the interface holds is nil for nil, and else a pointer to an object that means the same and
-- shares no cell.
abbrev pub IsSeparateObject :
    {A V : Type 0} → Copying A V → Pointer Address A → Option (Pointer Address A) → Type 0
IsSeparateObject c nil o = o ≡ none
IsSeparateObject c (at a x) o =
    (a' : Address) × (x' : _) × (o ≡ some (at a' x'))
    × (Copying.value c x' ≡ Copying.value c x)
    × AreDisjoint (a' ∷ Copying.cells c x') (a ∷ Copying.cells c x)

module _ (P : Packages) (deep : AreDeep P) where
  -- `DeepCopy` of a volume group means what the volume group means and shares no pointer and no slice
  -- with it, if the packages' types are copied so and the volume group was allocated before.
  pub deep_copy_volume_group-Separates :
      (source : Pointer Address (Group P)) (next : Address)
      → AreAllocated next (pointer_cells (volume_group P) source)
      → (pointer_value (volume_group P) (deep_copy_volume_group P source next).0
          ≡ pointer_value (volume_group P) source)
        × AreDisjoint
            (pointer_cells (volume_group P) (deep_copy_volume_group P source next).0)
            (pointer_cells (volume_group P) source)
  deep_copy_volume_group-Separates =
      deep_copy-Separates (volume_group P) (volume_group-IsDeep P deep)

  -- `DeepCopyObject` of a list is nil exactly for nil, and otherwise a pointer to a list that means the
  -- same and shares no pointer and no slice with it, under the same conditions.
  pub deep_copy_volume_group_list_object-Separates :
      (source : Pointer Address (Groups P)) (next : Address)
      → AreAllocated next (pointer_cells (volume_group_list P) source)
      → IsSeparateObject
          (volume_group_list P)
          source
          (deep_copy_volume_group_list_object P source next).0
  unfolding deep_copy
  deep_copy_volume_group_list_object-Separates nil next old = refl
  deep_copy_volume_group_list_object-Separates (at a l) next old =
      let (same, new) = volume_group_list-IsDeep P deep l (suc next) in
      (
        _,
        _,
        refl,
        same,
        AreNew-AreDisjoint _ _ _ (pointer_cells (volume_group_list P) (at a l))
            (AreNew-cons _ _ _ new) old,
      )

-- `DeepCopy` of a selector is nil for nil, and else a deep copy, whose header comes first.
deep_copy_selector-IsDeepCopy :
    (source : PhysicalVolumeSelector Address) (next : Address)
    → (slice_value term (deep_copy_selector source next).0 ≡ slice_value term source)
      × AreNew next
          (deep_copy_selector source next).1
          (slice_cells term (deep_copy_selector source next).0)
unfolding copy_slice
deep_copy_selector-IsDeepCopy nil_slice next = sliced-IsDeep term term-IsDeep nil_slice next
deep_copy_selector-IsDeepCopy (slice a terms) next =
    let (same, new) = sliced-IsDeep term term-IsDeep (slice a terms) (suc next) in
    (same, AreNew-later _ _ _ new)
