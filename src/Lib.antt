-- ===== src/Lib.antt =====
-- A model of topovgm, a controller that keeps LVM2 volume groups of a Kubernetes node as
-- VolumeGroup resources ask for them, with the theorems that make it correct.
--
-- The program. A round, `Reconcile`, reads a resource. If the resource is another node's, nothing
-- happens. If it is being deleted, its volume group is removed from the host and then the finalizer
-- from the resource. Otherwise the volume group is looked up with lvm2; if there is none it is
-- created with the devices that the resource's selector picks from the output of `lsblk`; then the
-- finalizer is added, and once it is there `sync` changes the volume group by the differences to the
-- resource, `syncStatus` copies the host's view into the resource's status, and the status is
-- written. `sync` runs six functions, joins their errors, and may remove lost devices and call
-- itself again.
--
-- Files and code:
--   Api/Selector, Api/Spec, Api/Status: the resource types of api/v1alpha1/volumegroup_types.go.
--     String types with named values are data types with a constructor for any other string, unless
--     the code passes the string on.
--   Api/Copies: api/v1alpha1/zz_generated.deepcopy.go. `DeepCopyInto` of a type is copy_ with its
--     name, `DeepCopy` deep_copy_ and `DeepCopyObject` deep_copy_ with _object. Memory has pointers,
--     slices and the counter of addresses; Laws, Deep and Separation hold the theorems.
--   Utils, Utils/Snake: internal/utils/utils.go. `InLeftButNotInRight` is in_left_but_not_in_right,
--     `SequentialTwoWaySync` sequential_two_way_sync, `ToSnakeCase` to_snake_case. Utils/Diff,
--     Utils/TwoWay and Utils/Snake/Laws hold their theorems.
--   Lsblk/Device, Lsblk/Command: internal/lsblk/lsblk.go. A `BlockDevice` is a JSON object;
--     `GetString` is get_string, `Children` children, `RecursiveBlockDevices`
--     recursive_block_devices, `LSBLK` lsblk and `runInto` run_into.
--   Lsblk/Columns: the named columns, and the keys that the resource definition admits in a selector.
--   Selector/Requirement, Selector/Devices: internal/selector/selector.go.
--     `matchesLSBLKRequirement` is matches_lsblk_requirement and `DevicesMatchingSelector`
--     devices_matching_selector, whose two loops are select.
--   Controller/Convert: internal/controller/volumegroup_conversion_util.go, with the same names in
--     snake case. Controller/Conditions: internal/controller/volumegroup_synced_on_host.go.
--   Controller/Syncers (the six functions), Controller/Sync (`sync`), Controller/Status
--     (`syncStatus`): internal/controller/volumegroup_controller_sync.go.
--   Controller/Reconcile: internal/controller/volumegroup_controller.go. ensure is the part for a
--     resource that stays, remove that for one that is being deleted, keep what follows the creation
--     or the lookup.
--   Manager: cmd/main.go, `SetupWithManager`, api/v1alpha1/groupversion_info.go and the `init`
--     functions. Process has results or exit statuses; Scheme is the registration of the types, Main
--     the flags, the options and `main`; Serving and Failing tell how it ends.
--   Controller/Plan: the commands that two of the six functions mean to run, as lists.
--     Controller/Safety: which commands a round may run and how it writes the resource.
--     Controller/Convergence: what commands are documented to do with a volume group, the volume group
--     that a resource asks for, and the commands that a group needs to become it.
--     Controller/Lifecycle: rounds in a row, over an API server that stores the resource and a node
--     that holds the volume group, from the creation of the group to its removal.
--   Go: errors, effects, panics, `slices.Sort` and `slices.Compact`, and ASCII texts. Prelude: names
--     of the libraries, equality tests and integers of 64 bits. Tests: a toy node, a cluster,
--     runs of the program on them, and the theorems applied there.
--
-- State. A function with effects takes a state and returns an outcome, which is a value, an error or
-- a panic, and the state that it leaves in each of these cases. `sync` and what surrounds it work on
-- the resource in memory together with the world; the world is any type.
--
-- Parameters. Code outside of the repository is an argument: lvm2go's types and client (Lvm), the
-- quantities of Kubernetes (Selector/Quantity), the API server, the clock, `SetStatusCondition` and
-- the finalizer functions (Controller/Platform), the process that runs `lsblk` (Lsblk/Command), the
-- types of apimachinery with their deep copies (Api/Copies/Packages), and what `main` calls of
-- controller-runtime, the flag package and the loggers (Manager/Runtime). What a theorem relies on is
-- a named hypothesis of it, and the witness in Tests shows that it can hold.
--
-- Fuel. Only `sync` needs fuel, for its calls of itself after a removal of lost devices. One more
-- than the number of lost devices is enough, if each removal that succeeds lowers that number. All
-- other recursion is structural.
--
-- An object in memory is a tree of cells: a pointer or a slice is its address with what is stored
-- there. A deep copy takes its addresses from a counter, so that a new one is any from the counter
-- on.
--
-- Not modelled: the options of the loggers and the usage texts of the flags in cmd/main.go; the
-- validation and the defaults of the custom resource definition, which the API server does, but for
-- the keys of a selector; logging in the controller; the deadline of ten seconds of a round's
-- context, which shows only in what lvm2 answers; the time of a condition's last transition;
-- letters outside of ASCII in `strings.ToLower`.
-- lvm2go, the API machinery and the tests are not part of the model: the first two are parameters.
pub mod Prelude
pub mod Go
pub mod Utils
pub mod Api
pub mod Lsblk
pub mod Selector
pub mod Lvm
pub mod Controller
pub mod Manager
pub mod Tests
