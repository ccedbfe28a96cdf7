-- ===== src/Tests.antt =====
-- Concrete inputs: labels and an encoding that meet the interfaces, and the theorems at them.
mod Setup
mod Fs
mod Syscall
mod Sched
mod Service
mod Localrm
mod Worker
mod Vm
mod Bootstrap
mod Paths
mod Webfront
mod Conversions
