-- ===== src/Lsblk.antt =====
-- internal/lsblk/lsblk.go: block devices as `lsblk --json` reports them, and the call of `lsblk`.
pub mod Device
pub mod Columns
pub mod Command
pub use Device.{Any, nil, bool, float64, int, string, array, object, Anys, last, next}
pub use Device.{BlockDevice, no_entry, entry, Column, column_path}
unfoldable pub use Device.{lookup_key, get, get_string, children, recursive_block_devices}
