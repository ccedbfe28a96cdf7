-- ===== src/Syscall.antt =====
-- The system calls of a running function: snapfaas/src/syscall_server.rs, with the messages of
-- syscalls.proto and the blob store of snapfaas/src/blobstore/mod.rs.
pub mod Messages
pub mod Conversions
pub mod Server
pub mod Blobs
pub mod Dents
pub mod Edit
pub mod Invoke
pub mod Run
pub mod Plan
pub mod Privilege
pub mod Fresh
pub mod Counters
pub mod Outcomes
pub mod Answers
pub mod Sending
pub mod Contents
pub mod Start
