-- ===== src/Localrm.antt =====
-- The VMs of one worker node: snapfaas/src/resource_manager.rs.
pub mod Manager
pub mod Memory
pub mod Public
