-- ===== src/Api/Selector.antt =====
-- The selector of physical volumes: a union of terms, each a conjunction of requirements.
use topovgm.Prelude.{String, List}

-- `PVSelectorOperator`, a string type with four named values.
pub data PvSelectorOperator : Type 0 where
  op_in op_exists op_does_not_exist op_gt : PvSelectorOperator
  other_operator : String → PvSelectorOperator

abbrev pub operator_text : PvSelectorOperator → String
operator_text op_in = "In"
operator_text op_exists = "Exists"
operator_text op_does_not_exist = "DoesNotExist"
operator_text op_gt = "Gt"
operator_text (other_operator s) = s

pub record LsblkSelectorRequirement : Type 0 where
  pub key : String
  pub operator : PvSelectorOperator
  pub values : List String

pub record PvSelectorTerm : Type 0 where
  pub match_lsblk : List LsblkSelectorRequirement

abbrev pub PhysicalVolumeSelector : Type 0
PhysicalVolumeSelector = List PvSelectorTerm
