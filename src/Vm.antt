-- ===== src/Vm.antt =====
-- The handle of a virtual machine: snapfaas/src/vm.rs, with snapfaas/src/configs.rs and
-- snapfaas/src/cli.rs.
pub mod Channel
pub mod Frames
pub mod Config
pub mod Options
