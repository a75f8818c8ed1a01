-- ===== src/Tests/Node.antt =====
-- A node to run the program on: lvm2, the API server and the clock over a small state.
use Prim.Native.Nat.{Ordering}
use topovgm.Prelude.{◌≡◌, refl, ap}
use topovgm.Prelude.{
  String, Bool, true, false, Option, none, some, List, [], ◌∷◌, ◌++◌, map, ◌==◌, string_eq,
  if◌then◌else◌, contains,
}
use topovgm.Prelude.Int.{ℤ, pos, ltb_ℤ}
use mathlib.Core.Bool.{Bool-discrete}
use topovgm.Go.{⊤, Error, external, message, Outcome, ok, fail, M, is_error}
use topovgm.Api.Status.{Condition}
use topovgm.Lsblk.{BlockDevice}
use mathlib.Core.Option
use topovgm.Lvm.{
  maximum_physical_volumes, maximum_logical_volumes, allocation_policy, auto_activation, LvmTypes,
  LvmVolumeGroup, LvmPhysicalVolume, VgChangeOption, Command, vg_create, vg_remove, vg_change,
  vg_extend, vg_reduce, vg_rename, pv_move, tags, del_tags,
}
use topovgm.Selector.Quantity.{Quantities}
use topovgm.Controller.Platform.{Platform, Resource, Host}

abbrev compare_ℤ : ℤ → ℤ → Ordering
compare_ℤ a b = if ltb_ℤ a b then Ordering.lt else if ltb_ℤ b a then Ordering.gt else Ordering.eq

-- Quantities are numbers, and every text but "?" is one thousand.
abbrev pub quantities : Quantities
quantities = record {
  Quantity = ℤ;
  parse = λ s. if s == "?" then fail (message "unable to parse quantity") else ok (pos 1000);
  new = λ n. n;
  cmp = compare_ℤ;
}

-- Errors that lvm2 makes: 1 is a missing volume group, and 2 is missing physical volumes.
abbrev pub types : LvmTypes
types = record {
  Size = ℤ;
  to_bytes = λ size. ok size;
  validate = λ size. if ltb_ℤ size (pos 0) then fail (message "invalid size") else ok tt;
  AutoActivation = Bool;
  auto_activation_eq = record { dec = Bool-discrete };
  set_auto_activate = true;
  set_no_auto_activate = false;
  is_true = λ b. b;
  Zero = Bool;
  zero_volume = true;
  do_not_zero_volume = false;
  vg_not_found = 1;
  is_lvm_not_found = λ e. is_error e 1;
  is_missing_pvs = λ err. elim err [ none ↦ false | some e ↦ is_error e 2 ];
}

abbrev pub set_condition : List Condition → Condition → List Condition
set_condition [] c = c ∷ []
set_condition (d ∷ conditions) c =
    let rest = d ∷ set_condition conditions c in if c.kind == d.kind then c ∷ conditions else rest

abbrev drop : String → List String → List String
drop f [] = []
drop f (g ∷ gs) = let rest = drop f gs in if f == g then rest else g ∷ rest

abbrev pub platform : Platform
platform = record {
  quantities = quantities;
  lvm = types;
  new_size = λ q. q;
  set_status_condition = set_condition;
  add_finalizer = λ fs f. if contains fs f then (fs, false) else (fs ++ (f ∷ []), true);
  remove_finalizer = λ fs f. (drop f fs, contains fs f);
}

pub record NodeState : Type 0 where
  pub resource : Option (Resource platform)
  pub group : Option (LvmVolumeGroup types)
  pub volumes : List (LvmPhysicalVolume types)
  pub devices : List BlockDevice
  -- Whether a physical volume is missing.
  pub lost : Bool
  pub time : ℤ

abbrev pub volume : String → LvmPhysicalVolume types
volume name = record {
  name = name;
  uuid = "uuid";
  dev_size = pos 1073741824;
  size = pos 1069547520;
  free = pos 1069547520;
  used = pos 0;
  mda_free = pos 520192;
  mda_size = pos 1044480;
  pe_start = pos 1048576;
  mda_count = pos 1;
  mda_used_count = pos 1;
  tags = [];
  device_id = "";
  device_id_type = "";
  attr = "a--";
  minor = pos 0;
  major = pos 7;
}

abbrev pub group_named : String → List String → LvmVolumeGroup types
group_named name labels = record {
  name = name;
  uuid = "uuid";
  sys_id = "";
  attr = "wz--n-";
  tags = labels;
  extent_size = pos 4194304;
  extent_count = pos 510;
  seq_no = pos 1;
  size = pos 2139095040;
  free = pos 2139095040;
  pv_count = pos 1;
  missing_pv_count = pos 0;
  max_pv = pos 0;
  lv_count = pos 0;
  max_lv = pos 0;
  snap_count = pos 0;
  mda_count = pos 1;
  mda_used_count = pos 1;
  allocation_policy = "normal";
  auto_activation = true;
}

abbrev without_names : List String → List (LvmPhysicalVolume types) → List (LvmPhysicalVolume types)
without_names names [] = []
without_names names (pv ∷ pvs) =
    let rest = without_names names pvs in if contains names pv.name then rest else pv ∷ rest

abbrev without_tags : List String → List String → List String
without_tags labels [] = []
without_tags labels (t ∷ ts) =
    let rest = without_tags labels ts in if contains labels t then rest else t ∷ rest

abbrev change : VgChangeOption types → LvmVolumeGroup types → LvmVolumeGroup types
change (tags labels) g = record g { tags = g.tags ++ labels }
change (del_tags labels) g = record g { tags = without_tags labels g.tags }
change (maximum_physical_volumes n) g = record g { max_pv = n }
change (maximum_logical_volumes n) g = record g { max_lv = n }
change (allocation_policy policy) g = record g { allocation_policy = policy }
change (auto_activation b) g = record g { auto_activation = b }

abbrev named : String → LvmVolumeGroup types → LvmVolumeGroup types
named name g = record g { name = name }

abbrev pub missing_group : Error
missing_group = external 1 "volume group not found"

abbrev pub missing_volumes : Error
missing_volumes = external 2 "missing physical volumes"

-- A command that lvm2 refuses while a physical volume is missing.
abbrev if_whole : NodeState → NodeState → Outcome ⊤ × NodeState
if_whole w w' = if w.lost then (fail missing_volumes, w) else (ok tt, w')

abbrev remove_group : NodeState → Option (LvmVolumeGroup types) → Outcome ⊤ × NodeState
remove_group w none = (fail missing_group, w)
remove_group w (some g) = (ok tt, record w { group = none })

abbrev perform : Command types → M NodeState ⊤
perform (vg_create opts) w = (
  ok tt,
  record w {
    group = some (group_named opts.volume_group_name opts.tags);
    volumes = map volume opts.physical_volume_names;
  },
)
perform (vg_remove name force) w = remove_group w w.group
perform (vg_change name option) w =
    if_whole w (record w { group = Option.map (change option) w.group })
perform (vg_extend name names) w = if_whole w (record w { volumes = w.volumes ++ map volume names })
perform (vg_reduce name names true force) w = (ok tt, record w { lost = false })
perform (vg_reduce name names false force) w =
    if_whole w (record w { volumes = without_names names w.volumes })
perform (vg_rename old new) w = if_whole w (record w { group = Option.map (named new) w.group })
perform (pv_move pv names) w = if_whole w w

abbrev found : Option (LvmVolumeGroup types) → Option (LvmVolumeGroup types) × Option Error
found none = (none, some missing_group)
found (some g) = (some g, none)

abbrev stored : Option (Resource platform) → Outcome (Resource platform)
stored none = fail (external 3 "not found")
stored (some vg) = ok vg

abbrev pub host : Host platform NodeState
host = record {
  client = record {
    vg = λ name w. (found w.group, w);
    pvs = λ name w. (ok w.volumes, w);
    run = perform;
  };
  run_lsblk = λ columns w. (ok w.devices, w);
  get = λ request w. (stored w.resource, w);
  is_not_found = λ e. is_error e 3;
  update = λ vg w. (ok tt, record w { resource = some vg });
  update_status = λ vg w. (ok tt, record w { resource = some vg });
  now = λ w. (w.time, w);
}

pub names_of_volumes :
    (names : List String) → map (λ pv. LvmPhysicalVolume.name pv) (map volume names) ≡ names
names_of_volumes [] = refl
names_of_volumes (x ∷ names) = ap (λ l. x ∷ l) (names_of_volumes names)
