-- ===== src/Tests.antt =====
-- Runs of the program's definitions at concrete inputs, and its theorems applied there.
pub mod Node
pub mod Inputs
mod Slices
pub mod Runs
mod Texts
mod Rounds
mod Steps
mod Convergence
mod Lsblk
mod Safety
mod Counting
mod Selection
mod Copies
mod Manager
mod Cluster
mod Lifecycle
