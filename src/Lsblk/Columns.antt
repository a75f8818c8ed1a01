-- ===== src/Lsblk/Columns.antt =====
-- internal/lsblk/lsblk.go: the named columns, and the keys that api/v1alpha1/volumegroup_types.go
-- admits in a selector.
pub mod Laws
use topovgm.Prelude.{List, [], ◌∷◌}
use topovgm.Lsblk.Device.{Column}

-- The constants `ColumnName` to `ColumnDAX`.
unfoldable pub named_columns : List Column
named_columns =
    "NAME" ∷ "KNAME" ∷ "PATH" ∷ "MAJ:MIN" ∷ "FSAVAIL" ∷ "FSSIZE" ∷ "FSTYPE" ∷ "FSUSED" ∷ "FSUSE%"
    ∷ "FSROOTS" ∷ "FSVER" ∷ "MOUNTPOINT" ∷ "MOUNTPOINTS" ∷ "LABEL" ∷ "UUID" ∷ "PTUUID" ∷ "PTTYPE"
    ∷ "PARTTYPE" ∷ "PARTTYPENAME" ∷ "PARTLABEL" ∷ "PARTUUID" ∷ "PARTFLAGS" ∷ "RA" ∷ "RO" ∷ "RM"
    ∷ "HOTPLUG" ∷ "MODEL" ∷ "SERIAL" ∷ "SIZE" ∷ "STATE" ∷ "OWNER" ∷ "GROUP" ∷ "MODE" ∷ "ALIGNMENT"
    ∷ "MIN-IO" ∷ "OPT-IO" ∷ "PHY-SEC" ∷ "LOG-SEC" ∷ "ROTA" ∷ "SCHED" ∷ "RQ-SIZE" ∷ "TYPE"
    ∷ "DISC-ALN" ∷ "DISC-GRAN" ∷ "DISC-MAX" ∷ "DISC-ZERO" ∷ "WSAME" ∷ "WWN" ∷ "RAND" ∷ "PKNAME"
    ∷ "HCTL" ∷ "TRAN" ∷ "SUBSYSTEMS" ∷ "REV" ∷ "VENDOR" ∷ "ZONED" ∷ "DAX" ∷ []

-- The enumeration that validates `LSBLKSelectorKey`.
unfoldable pub admitted_keys : List Column
admitted_keys =
    "NAME" ∷ "KNAME" ∷ "PATH" ∷ "MAJ:MIN" ∷ "FSAVAIL" ∷ "FSSIZE" ∷ "FSTYPE" ∷ "FSUSED" ∷ "FSUSE%"
    ∷ "FSROOTS" ∷ "FSVER" ∷ "MOUNTPOINT" ∷ "MOUNTPOINTS" ∷ "LABEL" ∷ "UUID" ∷ "PTUUID" ∷ "PTTYPE"
    ∷ "PARTTYPE" ∷ "PARTTYPENAME" ∷ "PARTLABEL" ∷ "PARTUUID" ∷ "PARTFLAGS" ∷ "RA" ∷ "RO" ∷ "RM"
    ∷ "HOTPLUG" ∷ "MODEL" ∷ "SERIAL" ∷ "SIZE" ∷ "STATE" ∷ "OWNER" ∷ "GROUP" ∷ "MODE" ∷ "ALIGNMENT"
    ∷ "MIN-IO" ∷ "OPT-IO" ∷ "PHY-SEC" ∷ "LOG-SEC" ∷ "ROTA" ∷ "SCHED" ∷ "RQ-SIZE" ∷ "TYPE"
    ∷ "DISC-ALN" ∷ "DISC-GRAN" ∷ "DISC-MAX" ∷ "DISC-ZERO" ∷ "WSAME" ∷ "WWN" ∷ "RAND" ∷ "PKNAME"
    ∷ "HCTL" ∷ "TRAN" ∷ "SUBSYSTEMS" ∷ "REV" ∷ "VENDOR" ∷ "ZONED" ∷ "DAX" ∷ []
