-- ===== src/Controller/Convert/Policies.antt =====
-- The named allocation policies: what `sync` and what `VGCreate` are given for them.
use text.Mathlib.TextEquality.{eq_iff}
use topovgm.Prelude.{String, ◌≡◌, ◌≢◌, refl, ◌∙◌, some, arith}
use topovgm.Go.{ok}
use topovgm.Utils.Snake.{to_snake_case}
use topovgm.Api.Spec.{
  NamedPolicy, contiguous, normal, cling, cling_by_tags, anywhere, inherit, policy_text,
}
use topovgm.Lvm.{VgCreateOptions}
use topovgm.Controller.Platform.{Platform, Resource, Host}
use topovgm.Controller.Convert.{convert_to_vg_create_options}
use topovgm.Controller.Convert.Options.{convert_to_vg_create_options-Carries}

-- The values of `--alloc` that lvm(8) documents.
abbrev pub lvm_policy : NamedPolicy → String
lvm_policy contiguous = "contiguous"
lvm_policy normal = "normal"
lvm_policy cling = "cling"
lvm_policy cling_by_tags = "cling_by_tags"
lvm_policy anywhere = "anywhere"
lvm_policy inherit = "inherit"

to_snake_case-policy_text : (p : NamedPolicy) → to_snake_case (policy_text p) ≡ lvm_policy p
unfolding to_snake_case
to_snake_case-policy_text contiguous = refl
to_snake_case-policy_text normal = refl
to_snake_case-policy_text cling = refl
to_snake_case-policy_text cling_by_tags = refl
to_snake_case-policy_text anywhere = refl
to_snake_case-policy_text inherit = refl

policy_text-ne : (p : NamedPolicy) → policy_text p ≢ lvm_policy p
policy_text-ne contiguous = ground (arith, eq_iff "Contiguous" "contiguous")
policy_text-ne normal = ground (arith, eq_iff "Normal" "normal")
policy_text-ne cling = ground (arith, eq_iff "Cling" "cling")
policy_text-ne cling_by_tags = ground (arith, eq_iff "ClingByTags" "cling_by_tags")
policy_text-ne anywhere = ground (arith, eq_iff "Anywhere" "anywhere")
policy_text-ne inherit = ground (arith, eq_iff "Inherit" "inherit")

module _ (P : Platform) {W : Type 0} (h : Host P W) where
  -- For each of the six named allocation policies, `ToSnakeCase`, which `syncAllocationPolicy` uses,
  -- gives lvm2's value, while `VGCreate` is given the name as it is written in the resource, which is
  -- another text than lvm2's value.
  pub named_policies :
      (vg : Resource P) (p : NamedPolicy) (w : W) {opts : VgCreateOptions P.lvm} {w' : W}
      → vg.spec.allocation_policy ≡ some (policy_text p)
      → convert_to_vg_create_options P h vg w ≡ (ok opts, w')
      → (to_snake_case (policy_text p) ≡ lvm_policy p)
        × (opts.allocation_policy ≡ some (policy_text p))
        × (policy_text p ≢ lvm_policy p)
  named_policies vg p w set converted = (
    to_snake_case-policy_text p,
    (convert_to_vg_create_options-Carries P h vg w converted).1.policy ∙ set,
    policy_text-ne p,
  )
