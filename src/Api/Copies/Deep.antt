-- ===== src/Api/Copies/Deep.antt =====
-- The deep copies of the program's types are deep if those of the packages' types are.
use topovgm.Api.Copies.Memory.{Address, plain, deep_copy, pointer_cells}
use topovgm.Api.Copies.Packages.{Packages}
use topovgm.Api.Copies.Selector.{requirement, term}
use topovgm.Api.Copies.PhysicalVolume.{physical_volume_status}
use topovgm.Api.Copies.Spec.{volume_group_spec}
use topovgm.Api.Copies.Status.{volume_group_status}
use topovgm.Api.Copies.Resource.{volume_group, volume_group_list}
use topovgm.Api.Copies.Laws.{
  AreNew, ◌⨾◌, IsDeep, plain-IsDeep, deep_copy-value, deep_copy-AreNew, copy_slice-value,
  copy_slice-AreNew,
}

requirement-IsDeep : IsDeep requirement
requirement-IsDeep r next =
    (simp (copy_slice-value plain plain-IsDeep), copy_slice-AreNew plain plain-IsDeep _ _)

pub term-IsDeep : IsDeep term
term-IsDeep t next = (
  simp (copy_slice-value requirement requirement-IsDeep),
  copy_slice-AreNew requirement requirement-IsDeep _ _,
)

-- What the packages document of their `DeepCopyInto`.
pub record AreDeep (P : Packages) : Type 0 where
  pub quantities : IsDeep P.quantity
  pub conditions : IsDeep P.condition
  pub object_metas : IsDeep P.object_meta
  pub list_metas : IsDeep P.list_meta

module _ (P : Packages) (deep : AreDeep P) where
  quantity-AreNew :
      (p : _) (next : Address)
      → AreNew next
          (deep_copy P.quantity p next).1
          (pointer_cells P.quantity (deep_copy P.quantity p next).0)
  quantity-AreNew = deep_copy-AreNew P.quantity deep.quantities

  physical_volume_status-IsDeep : IsDeep (physical_volume_status P)
  physical_volume_status-IsDeep s next = (
    simp (deep_copy-value P.quantity deep.quantities, copy_slice-value plain plain-IsDeep),
    quantity-AreNew _ _
        ⨾ quantity-AreNew _ _
        ⨾ quantity-AreNew _ _
        ⨾ quantity-AreNew _ _
        ⨾ quantity-AreNew _ _
        ⨾ quantity-AreNew _ _
        ⨾ quantity-AreNew _ _
        ⨾ copy_slice-AreNew plain plain-IsDeep _ _,
  )

  volume_group_spec-IsDeep : IsDeep (volume_group_spec P)
  volume_group_spec-IsDeep s next = (
    simp (
      deep_copy-value P.quantity deep.quantities,
      copy_slice-value plain plain-IsDeep,
      deep_copy-value plain plain-IsDeep,
      copy_slice-value term term-IsDeep,
    ),
    deep_copy-AreNew plain plain-IsDeep _ _
        ⨾ copy_slice-AreNew term term-IsDeep _ _
        ⨾ copy_slice-AreNew plain plain-IsDeep _ _
        ⨾ deep_copy-AreNew plain plain-IsDeep _ _
        ⨾ deep_copy-AreNew plain plain-IsDeep _ _
        ⨾ quantity-AreNew _ _
        ⨾ quantity-AreNew _ _
        ⨾ deep_copy-AreNew plain plain-IsDeep _ _
        ⨾ quantity-AreNew _ _
        ⨾ quantity-AreNew _ _
        ⨾ copy_slice-AreNew plain plain-IsDeep _ _
        ⨾ deep_copy-AreNew plain plain-IsDeep _ _
        ⨾ deep_copy-AreNew plain plain-IsDeep _ _
        ⨾ deep_copy-AreNew plain plain-IsDeep _ _,
  )

  volume_group_status-IsDeep : IsDeep (volume_group_status P)
  volume_group_status-IsDeep s next = (
    simp (
      deep_copy-value P.quantity deep.quantities,
      copy_slice-value plain plain-IsDeep,
      copy_slice-value (physical_volume_status P) physical_volume_status-IsDeep,
      copy_slice-value P.condition deep.conditions,
    ),
    copy_slice-AreNew (physical_volume_status P) physical_volume_status-IsDeep _ _
        ⨾ copy_slice-AreNew plain plain-IsDeep _ _
        ⨾ quantity-AreNew _ _
        ⨾ quantity-AreNew _ _
        ⨾ quantity-AreNew _ _
        ⨾ copy_slice-AreNew P.condition deep.conditions _ _,
  )

  pub volume_group-IsDeep : IsDeep (volume_group P)
  volume_group-IsDeep vg next = (
    rw (
      (deep.object_metas _ _).0,
      (volume_group_spec-IsDeep vg.spec _).0,
      (volume_group_status-IsDeep vg.status _).0,
    ),
    (deep.object_metas _ _).1
        ⨾ (volume_group_spec-IsDeep vg.spec _).1
        ⨾ (volume_group_status-IsDeep vg.status _).1,
  )

  pub volume_group_list-IsDeep : IsDeep (volume_group_list P)
  volume_group_list-IsDeep l next = (
    rw ((deep.list_metas _ _).0, copy_slice-value (volume_group P) volume_group-IsDeep _ _),
    (deep.list_metas _ _).1 ⨾ copy_slice-AreNew (volume_group P) volume_group-IsDeep _ _,
  )
