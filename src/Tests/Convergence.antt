-- ===== src/Tests/Convergence.antt =====
-- The theorems on convergence, on a node whose state is the volume group.
use topovgm.Prelude.{false, true, none, some, [], ◌∷◌, map}
use topovgm.Prelude.Int.{pos}
use topovgm.Go.{ok}
use topovgm.Lvm.{LvmVolumeGroup}
use topovgm.Controller.Platform.{Host}
use topovgm.Controller.Convergence.{Group, apply}
use topovgm.Tests.Inputs.{paths}
use topovgm.Tests.Node.{platform, types, volume, group_named}
use topovgm.Tests.Inputs.{request, kept_resource, loop_devices}

-- What lvm2 returns of the group.
abbrev snapshot : Group → LvmVolumeGroup platform.lvm
snapshot g = record (group_named "vg1" g.tags) {
  max_pv = g.max_pv;
  max_lv = g.max_lv;
  allocation_policy = g.policy;
  auto_activation = g.active;
}

-- Every command does what it documents.
abbrev obedient : Host platform Group
obedient = record {
  client = record {
    vg = λ name g. ((some (snapshot g), none), g);
    pvs = λ name g. (ok (map volume g.volumes), g);
    run = λ command g. (ok tt, apply types command g);
  };
  run_lsblk = λ columns g. (ok loop_devices, g);
  get = λ request g. (ok kept_resource, g);
  is_not_found = λ e. false;
  update = λ vg g. (ok tt, g);
  update_status = λ vg g. (ok tt, g);
  now = λ g. (pos 9, g);
}

abbrev before : Group
before = record {
  tags = "old" ∷ [];
  volumes = "/dev/loop0" ∷ "/dev/loop9" ∷ [];
  max_pv = pos 0;
  max_lv = pos 0;
  policy = "normal";
  active = true;
}

abbrev after : Group
after = record {
  tags = "topovgm" ∷ [];
  volumes = paths;
  max_pv = pos 16;
  max_lv = pos 0;
  policy = "cling_by_tags";
  active = false;
}

abbrev group_before : LvmVolumeGroup platform.lvm
group_before = snapshot before

abbrev group_after : LvmVolumeGroup platform.lvm
group_after = snapshot after
