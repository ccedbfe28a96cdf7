-- ===== src/Fs.antt =====
-- The labelled file system of snapfaas/src/fs, over any backing store.
pub mod Errors
pub mod Types
pub mod World
pub mod Object
pub mod Path
pub mod Ops
pub mod Utils
pub mod Calls
pub mod Parser
