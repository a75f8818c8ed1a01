-- ===== src/Api/Copies/Selector.antt =====
-- The deep copies of `LSBLKSelectorRequirement`, `PVSelectorTerm` and `PhysicalVolumeSelector`.
use topovgm.Prelude.{String}
use topovgm.Api.Selector.{PvSelectorOperator}
use topovgm.Api.Copies.Memory.{
  Address, Pointer, Slice, nil_slice, slice, elements, New, pure, ◌>>=◌, allocate, Copying, plain,
  deep_copy, copy_elements, copy_slice, slice_value, slice_cells,
}

-- The types of api/v1alpha1/volumegroup_types.go, with addresses in `L`.
pub record LsblkSelectorRequirement (L : Type 0) : Type 0 where
  pub key : String
  pub operator : PvSelectorOperator
  pub values : Slice L String

pub record PvSelectorTerm (L : Type 0) : Type 0 where
  pub match_lsblk : Slice L (LsblkSelectorRequirement L)

abbrev pub PhysicalVolumeSelector : Type 0 → Type 0
PhysicalVolumeSelector L = Slice L (PvSelectorTerm L)

abbrev pub copy_requirement :
    LsblkSelectorRequirement Address → New (LsblkSelectorRequirement Address)
copy_requirement source = do
  values ← copy_slice plain source.values
  pure (record source { values = values })

abbrev pub requirement : Copying (LsblkSelectorRequirement Address) (LsblkSelectorRequirement Unit)
requirement = record {
  value = λ r. record { key = r.key; operator = r.operator; values = slice_value plain r.values };
  cells = λ r. slice_cells plain r.values;
  deep_copy_into = copy_requirement;
}

abbrev deep_copy_requirement :
    Pointer Address (LsblkSelectorRequirement Address)
    → New (Pointer Address (LsblkSelectorRequirement Address))
deep_copy_requirement = deep_copy requirement

abbrev pub copy_term : PvSelectorTerm Address → New (PvSelectorTerm Address)
copy_term source = do
  match_lsblk ← copy_slice requirement source.match_lsblk
  pure (record { match_lsblk = match_lsblk })

abbrev pub term : Copying (PvSelectorTerm Address) (PvSelectorTerm Unit)
term = record {
  value = λ t. record { match_lsblk = slice_value requirement t.match_lsblk };
  cells = λ t. slice_cells requirement t.match_lsblk;
  deep_copy_into = copy_term;
}

abbrev deep_copy_term :
    Pointer Address (PvSelectorTerm Address) → New (Pointer Address (PvSelectorTerm Address))
deep_copy_term = deep_copy term

-- `DeepCopyInto` makes a slice even for nil.
abbrev pub copy_selector : PhysicalVolumeSelector Address → New (PhysicalVolumeSelector Address)
copy_selector source = do
  out ← allocate
  terms ← copy_elements term (elements source)
  pure (slice out terms)

-- The header of the copy is allocated, and then read: `return *out`.
abbrev pub deep_copy_selector :
    PhysicalVolumeSelector Address → New (PhysicalVolumeSelector Address)
deep_copy_selector nil_slice = pure nil_slice
deep_copy_selector (slice a terms) = do _ ← allocate; copy_selector (slice a terms)
