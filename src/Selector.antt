-- ===== src/Selector.antt =====
-- internal/selector/selector.go: which block devices a selector picks.
pub mod Quantity
pub mod Requirement
pub mod Devices
