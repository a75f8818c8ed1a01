-- ===== src/Manager.antt =====
-- cmd/main.go: the binary that runs the controller, and what it registers and hands to the manager.
pub mod Process
pub mod Runtime
pub mod Scheme
pub mod Main
pub mod Serving
pub mod Failing
