-- ===== src/Tests/Cluster.antt =====
-- A cluster of one resource and one volume group, which keeps the laws that the theorems on the life
-- of a volume group ask for.
use topovgm.Prelude.{
  sym, ◌∙◌, ◌≡◌, refl, ap, String, Bool, false, true, Option, none, some, List, [], ◌∷◌, string_eq,
  contains-append, arith, map,
}
use topovgm.Prelude.Int.{pos}
use topovgm.Go.{⊤, Outcome, Error, message, ok, fail, M}
use topovgm.Lvm.{
  LvmVolumeGroup, Command, vg_create, vg_remove, vg_change, vg_extend, vg_reduce, vg_rename,
  pv_move,
}
use topovgm.Controller.Platform.{Resource, Host}
use topovgm.Controller.Reconcile.{finalizer}
use topovgm.Controller.Convergence.{Group, apply}
use topovgm.Controller.Lifecycle.{Cluster, stored_after}
use mathlib.Core.Option.{some-injective}
use topovgm.Go.Preserves.{Preserves}
use topovgm.Controller.Safety.{IsQuiet}
use topovgm.Controller.Lifecycle.Guard.{AddsFinalizer, AcceptsFinalizer, Guards, HasFinalizer}
use topovgm.Tests.Node.{platform, types, volume, group_named, missing_group}
use topovgm.Tests.Inputs.{request, loop_devices}
use topovgm.Tests.Runs.{round}

pub record State : Type 0 where
  pub stored : Option (Resource platform)
  pub on_host : Bool
  pub group : Group

abbrev pub snapshot : String → Group → LvmVolumeGroup platform.lvm
snapshot name g = record (group_named name g.tags) {
  max_pv = g.max_pv;
  max_lv = g.max_lv;
  allocation_policy = g.policy;
  auto_activation = g.active;
}

abbrev pub created : List String → List String → Group
created labels names = record {
  tags = labels;
  volumes = names;
  max_pv = pos 0;
  max_lv = pos 0;
  policy = "normal";
  active = true;
}

abbrev destroy : Bool → M State ⊤
destroy true s = (ok tt, record s { on_host = false })
destroy false s = (fail missing_group, s)

abbrev pub look : String → Bool → Group → Option (LvmVolumeGroup types) × Option Error
look name true g = (some (snapshot name g), none)
look name false g = (none, some missing_group)

abbrev pub read : Option (Resource platform) → M State (Resource platform)
read none s = (fail (message "not found"), s)
read (some vg) s = (ok vg, s)

abbrev pub act : Command types → M State ⊤
act (vg_create opts) s =
    (ok tt, record s { on_host = true; group = created opts.tags opts.physical_volume_names })
act (vg_remove _ _) s = destroy s.on_host s
act c s = (ok tt, record s { group = apply types c s.group })

abbrev pub cluster : Host platform State
cluster = record {
  client = record {
    vg = λ name s. (look name s.on_host s.group, s);
    pvs = λ name s. (ok (map volume s.group.volumes), s);
    run = act;
  };
  run_lsblk = λ columns s. (ok loop_devices, s);
  get = λ request s. read s.stored s;
  is_not_found = λ e. true;
  update = λ vg s. (ok tt, record s { stored = stored_after platform vg });
  update_status = λ vg s. (ok tt, s);
  now = λ s. (pos 9, s);
}

pub cluster-Cluster : Cluster platform cluster request "vg1" (λ s. s.stored) (λ s. s.on_host)
unfolding round
cluster-Cluster = record {
  gets = λ s vg here. ap (λ o. read o s) here;
  gets_nothing = λ s gone. (message "not found", ap (λ o. read o s) gone);
  misses = λ s absent. (missing_group, ap (λ b. (look "vg1" b s.group, s)) absent, refl);
  tells = λ s. (pos 9, s, refl, refl, refl);
  updates = λ vg s s' ran. ap (λ (out : Outcome ⊤ × State). out.1.stored) (sym ran);
  updates_host = λ vg s. refl;
  creates = λ opts s s' named ran. ap (λ (out : Outcome ⊤ × State). out.1.on_host) (sym ran);
  creates_nothing = λ opts r s s' failed ran absent.
      absurd (failed (ap (λ (out : Outcome ⊤ × State). out.0) (sym ran)));
  removes = λ force r s s' ran gone.
      ap (λ (out : Outcome ⊤ × State). out.1.on_host) (sym ran) ∙ destroyed s.on_host s refl;
  removes_absent = λ force s absent. destroyed s.on_host s refl;
}
  where
    destroyed : (b : Bool) (s : State) → s.on_host ≡ b → (destroy b s).1.on_host ≡ false
    destroyed true s there = refl
    destroyed false s absent = absent

pub adding : AddsFinalizer platform (λ (s : State). s.stored) (λ s. s.on_host)
adding = record {
  adds = λ fs. ground (arith, contains-append finalizer fs (finalizer ∷ []));
  present = λ fs same. ground arith;
}

look_name :
    (name : String) (b : Bool) (g : Group) (lvm : LvmVolumeGroup types)
    → (look name b g).0 ≡ some lvm
    → lvm.name ≡ name
look_name name true g lvm e =
    sym (ap (λ (lvm : LvmVolumeGroup types). lvm.name) (some-injective _ _ e))
look_name name false g lvm e = cc

destroy_stored : (b : Bool) (s : State) → (destroy b s).1.stored ≡ s.stored
destroy_stored true s = refl
destroy_stored false s = refl

-- No query changes the state, so that every property is kept.
module _ (Inv : State → Type 0) where
  cluster-IsQuiet : IsQuiet platform cluster Inv
  cluster-IsQuiet = record {
    vg = λ name s i. i;
    pvs = λ name. record { keeps = λ s i. i };
    run_lsblk = λ columns. record { keeps = λ s i. i };
    get = λ request. record { keeps = λ s i. read_keeps s.stored s i };
    update_status = λ vg. record { keeps = λ s i. i };
    now = λ s i. i;
  }
    where
      read_keeps : (o : Option (Resource platform)) (s : State) → Inv s → Inv (read o s).1
      read_keeps none s i = i
      read_keeps (some vg) s i = i

pub runs_finalizer :
    (c : Command types)
    → Preserves (HasFinalizer platform (λ s. s.stored) (λ (s : State). s.on_host)) (act c)
runs_finalizer (vg_remove _ _) = record {
  keeps = λ s has. (has.0, destroy_stored s.on_host s ∙ has.1, has.2);
}
runs_finalizer (vg_create _) = record { keeps = λ s has. has }
runs_finalizer (vg_change _ _) = record { keeps = λ s has. has }
runs_finalizer (vg_extend _ _) = record { keeps = λ s has. has }
runs_finalizer (vg_reduce _ _ _ _) = record { keeps = λ s has. has }
runs_finalizer (vg_rename _ _) = record { keeps = λ s has. has }
runs_finalizer (pv_move _ _) = record { keeps = λ s has. has }

pub cluster-Guards : Guards platform (λ s. s.stored) (λ s. s.on_host) cluster
cluster-Guards = record {
  adding = adding;
  keeps_finalizer = cluster-IsQuiet _;
  runs_finalizer = runs_finalizer;
  keeps_absent = cluster-IsQuiet _;
  by_name = λ name s lvm e. look_name name s.on_host s.group lvm e;
}

pub cluster-AcceptsFinalizer :
    AcceptsFinalizer platform (λ (s : State). s.stored) (λ s. s.on_host) cluster
cluster-AcceptsFinalizer vg s = (_, refl)
