-- ===== src/Manager/Scheme.antt =====
-- api/v1alpha1/groupversion_info.go and the two `init` functions: the types in the scheme.
use topovgm.Prelude.{[], ◌∷◌}
use topovgm.Go.{M}
use topovgm.Manager.Process.{Process, ◌>>=◌, must}
use topovgm.Manager.Runtime.{GroupVersion, volume_group, volume_group_list, Runtime}

abbrev group_version : GroupVersion
group_version = record { group = "topolvm.io"; version = "v1alpha1" }

module _ {W : Type 0} (rt : Runtime W) where
  abbrev scheme_builder : Runtime.Builder rt
  scheme_builder = rt.new_builder group_version

  -- The builder after the `init` of api/v1alpha1.
  abbrev pub registered : Runtime.Builder rt
  registered = rt.register (volume_group ∷ volume_group_list ∷ []) scheme_builder

  -- The method is bound to the pointer before `init`, and sees what is registered there.
  abbrev pub add_to_scheme : Runtime.Scheme rt → M W (Runtime.Scheme rt)
  add_to_scheme = rt.build registered

  -- `init` of cmd/main.go: the scheme that `main` uses.
  unfoldable pub init_scheme : Process W (Runtime.Scheme rt)
  init_scheme = do
    scheme ← must (rt.add_client_go_to_scheme rt.new_scheme)
    must (add_to_scheme scheme)
