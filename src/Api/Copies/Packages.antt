-- ===== src/Api/Copies/Packages.antt =====
-- The types of k8s.io/apimachinery inside the resource, with their own `DeepCopyInto`: parameters.
use topovgm.Api.Copies.Memory.{Copying}

pub record Packages : Type 1 where
  -- `resource.Quantity`
  pub Quantity : Type 0
  pub QuantityValue : Type 0
  pub quantity : Copying Quantity QuantityValue
  -- `metav1.Condition`
  pub Condition : Type 0
  pub ConditionValue : Type 0
  pub condition : Copying Condition ConditionValue
  -- `metav1.ObjectMeta`
  pub ObjectMeta : Type 0
  pub ObjectMetaValue : Type 0
  pub object_meta : Copying ObjectMeta ObjectMetaValue
  -- `metav1.ListMeta`
  pub ListMeta : Type 0
  pub ListMetaValue : Type 0
  pub list_meta : Copying ListMeta ListMetaValue
  -- `metav1.TypeMeta`, two texts, which the source copies by assignment.
  pub TypeMeta : Type 0
