-- ===== src/Sched.antt =====
-- Resources: what the scheduler knows of the worker nodes (snapfaas/src/sched/resource_manager.rs).
pub mod Framing
pub mod Rpc
pub mod HttpReply
pub mod Framed
pub mod Protocol
pub mod Service
pub mod Manager
pub mod Leaving
pub mod Lists
pub mod Consistent
pub mod Search
pub mod Reports
pub mod Removal
pub mod Once
pub mod Calls
