-- ===== src/Lib.antt =====
-- Faasten: a function-as-a-service system whose functions run under information-flow labels.
--
-- A function runs in a virtual machine and reaches the outside only by system calls. The system
-- call server (snapfaas/src/syscall_server.rs) holds the function's descriptors, its current label
-- and its privilege, and carries each call out on the file system (snapfaas/src/fs), on the blob
-- store (snapfaas/src/blobstore/mod.rs), through the scheduler or on a web service. The file system
-- keeps labelled objects under 64-bit numbers in a shared store that only has get, put, add,
-- compare-and-swap and delete; directories are changed by compare-and-swap loops.
--
-- Base, Base.Dict: shared types and maps. Labels: the interface of the `labeled` crate with the
-- laws that are relied on; the crate is no part of the repository.
-- Fs.Errors, Fs.Types: the types of fs/errors.rs, fs/mod.rs and fs/function.rs. An ObjectRef has the
-- kind of what it refers to as a parameter, as the phantom type in the source.
-- Fs.World: the store as fs/lmdb.rs implements it, the two thread-local labels, the numbers that
-- will be drawn, and the writes of other threads, batch by batch: one batch takes effect before each
-- access of the store. An action ends with a value, an error, a panic, or not at all. The encoding
-- of stored values (serde_json) is the interface Serde.
-- Fs.World.Steps: policies, which are preorders on worlds that every operation keeps to.
-- Fs.Object: ObjectRef::{get, set, set_new_id, cas, create}, Labeled::{unlabel, write, modify} (Core)
-- and the methods of each kind of object (Contents). Fs.Object.Directory, Races, Fresh, Gates and
-- Files prove what they do.
-- Fs.Path, Fs.Parser: fs/path.rs. Fs.Ops, Fs.Utils: the methods of FS, and fs/utils.rs.
-- Fs.Calls: any sequence of those as one type of calls.
-- Syscall.Messages: the messages of snapfaas/src/syscalls.proto. Syscall.Conversions: labels in
-- messages (snapfaas/src/syscalls.rs). Syscall.Server: the state of SyscallProcessor, and the blob
-- store. Syscall.Blobs, Dents, Edit, Invoke: the handlers.
-- Syscall.Run: do_syscall, new and run. Syscall.Plan: what any system call may do to the server, as
-- Fs.World.Steps for the file system, with bounds on the descriptors that are given out. The
-- modules Privilege, Fresh, Counters, Start, Contents, Outcomes and Sending prove what the calls do.
-- Bootstrap: the installation of images and of the gate fsutil (snapfaas/src/fs/bootstrap.rs).
-- Wire: streams of bytes and big-endian words. Sched.Framing, Rpc, HttpReply, Protocol: messages on
-- a stream and their types (snapfaas/src/sched/message.rs, rpc.rs, messages.proto); Framed proves
-- that they arrive. Sched.Manager, Leaving: the scheduler's knowledge of nodes, cached VMs and idle
-- workers (snapfaas/src/sched/resource_manager.rs). Sched.Service: the thread of each connection
-- and the scheduling thread (snapfaas/src/sched/rpc_server.rs, snapfaas/src/sched/mod.rs) as steps
-- that interleave in any order; Tasks, Rounds, Requests, Fifo and Answers prove what becomes of
-- tasks and of their results. Localrm: the VMs and the memory of one node
-- (snapfaas/src/resource_manager.rs, and try_allocate of snapfaas/src/worker.rs). Worker: the loop
-- of a worker (snapfaas/src/worker.rs), which runs the system call server for a task that it got
-- from the scheduler on a VM of the node. Vm: the channel of a VM, and the command line of its
-- process (snapfaas/src/vm.rs, snapfaas/src/configs.rs, snapfaas/src/cli.rs).
-- Webfront: logins, delegation and the invocation of gates for users on the web; App and Routes are
-- frontends/webfront/src/app.rs and Init is frontends/webfront/src/init.rs. Delegated, Sends and
-- Hidden prove what they give away. A request is given with its parts already read.
-- Tests: concrete labels, encodings and states, and the theorems at them.
--
-- Bounds. A compare-and-swap loop has one round more than there are batches of other threads'
-- writes, since a round fails only where another thread has written. The loop that resolves
-- redirect gates takes its number of rounds as an argument; more rounds than there are redirect
-- gates on the way are enough, and a gate that leads to itself has no number that is. The loop that
-- draws numbers goes through the given list. The loop of eviction takes its number of passes as an
-- argument; one for each cached VM is enough where these have the memory. The launch loop takes its
-- number of rounds as an argument; five are enough where one of the first five launches succeeds.
-- Counters of descriptors wrap around at 2^64, the length of a message on the channel of a VM and
-- the count of the launch loop at 2^32; the length of a message on other streams has eight bytes.
--
-- What the outside answers is part of the state: the outcome of each access of a blob's file,
-- whether a message can be sent and what comes back, the answers of web services, what comes in on
-- the channel, and how the launch of a VM ends. The order of a HashMap is that of its list.
--
-- Not modelled: the building of HTTP requests, the texts of I/O errors, the making of connections
-- and of their pool, the process of a virtual machine, the tools, the requests to GitHub, and the
-- other front ends.
pub mod Base
pub mod Wire
pub mod Labels
pub mod Fs
pub mod Syscall
pub mod Bootstrap
pub mod Sched
pub mod Localrm
pub mod Vm
pub mod Webfront
pub mod Worker
pub mod Tests
