-- ===== src/Worker.antt =====
-- The worker's loop: snapfaas/src/worker.rs, with `Vm::launch` of snapfaas/src/vm.rs by its outcome.
--
-- What comes from outside is part of the state: how each launch ends, and what the VM does in each
-- run. The paths of the images, which only the launched process reads, are left out, and the names
-- of the images are long enough to be split into paths. The worker has the VMs of its node to
-- itself.
pub mod Rounds
pub mod Taints
use faasten.Base.{
  ℕ, zero, suc, ◌%◌, ◌^◌, String, Bool, true, false, Option, none, some, List, [], ◌∷◌, ◌++◌,
  if◌then◌else◌, ◌==◌, number_eq,
}
use faasten.Base.Dict.{Dict}
use faasten.Labels.{Labels, Buckle, Component}
use faasten.Fs.Types.{Function}
use faasten.Fs.World.{Serde, Outcome, ok, err, panic, diverges}
use faasten.Syscall.Messages.{TaskReturn, ReturnCode}
use faasten.Syscall.Server.{Digest, OpenBlob, Server, Call, ◌>>=◌, pure, unwrap, store_open}
use faasten.Syscall.Run.{Incoming, Ended, Served, new_processor, run}
use faasten.Localrm.Manager.{Vm, Local, try_allocate, release, delete}
use faasten.Sched.Protocol.{InvokeMessage, SchedResponse}

-- How a launch ends; where the process of the VM ends before the VM connects, the worker's process
-- ends, too.
pub data Launch : Type 0 where
  launched failed process_ended : Launch

-- What a part of the loop comes to. It may end, panic, end the process, wait for ever for the VM,
-- or not end; `out_of_rounds` is that the given number of rounds is used up.
pub data Progress {ℓ} (A : Type ℓ) : Type ℓ where
  done : A → Progress A
  panicked exited waiting endless out_of_rounds : Progress A

-- `cnt += 1` on an `i32`, by its two's complement: past 2^31 - 1 it wraps around, which a debug build
-- turns into a panic.
abbrev pub next_count : ℕ → ℕ
next_count cnt = suc cnt % 2 ^ 32

module _ ⦃L : Labels⦄ ⦃S : Serde⦄ where
  -- What the VM does in one run: whether the request reaches it, and what it sends.
  pub record Turn : Type 0 where
    pub reached : Bool
    pub incoming : List Incoming

  pub record Worker : Type 0 where
    pub env : Server
    pub local : Local
    pub launches : List Launch
    pub turns : List Turn
    -- Whether each report to come can be sent, and those that were.
    pub writes : List Bool
    pub finished : List (String × TaskReturn)

  -- A task, after its `unwrap`s.
  pub record Job : Type 0 where
    pub function : Function
    pub label : Buckle
    pub privilege : Component
    pub message : InvokeMessage

  -- `vm.launch`. Past the end of the list a launch succeeds.
  unfoldable pub launch : Vm → Worker → Launch × Vm × Worker
  launch vm s = if vm.launched then (Launch.launched, vm, s) else elim s.launches [
    | [] ↦ (Launch.launched, record vm { launched = true }, s)
    | Launch.launched ∷ later ↦
        (Launch.launched, record vm { launched = true }, record s { launches = later })
    | Launch.failed ∷ later ↦ (Launch.failed, vm, record s { launches = later })
    | Launch.process_ended ∷ later ↦ (Launch.process_ended, vm, record s { launches = later })
  ]

  abbrev pub add_blob : String → OpenBlob → Dict String OpenBlob → Call (Dict String OpenBlob)
  add_blob k b rest = pure ((k, b) ∷ rest)

  -- The blobs of a task, each opened.
  unfoldable pub open_blobs : Dict String String → Call (Dict String OpenBlob)
  open_blobs [] = pure []
  open_blobs ((k, name) ∷ rest) = do
    o ← store_open name
    b ← unwrap o
    bs ← open_blobs rest
    add_blob k b bs

  -- Past the end of the list the VM is gone.
  abbrev pub next_turn : List Turn → Turn × List Turn
  next_turn [] = (record { reached = false; incoming = [] }, [])
  next_turn (t ∷ later) = (t, later)

  module _ ⦃D : Digest⦄ (rounds : ℕ) (principals : Component → Option (List (List String))) where
    unfoldable pub run_with :
        Job → Component → Outcome (Dict String OpenBlob) × Server → Turn → Ended × Server
    unfolding run new_processor
    run_with job invoker (ok blobs, env) t =
        let (e, replies, env') =
          run rounds principals job.message.payload blobs job.message.headers invoker t.reached
            t.incoming (new_processor job.label job.privilege env) in
        (e, env')
    run_with job invoker (err x, env) t = (Ended.panicked, env)
    run_with job invoker (panic, env) t = (Ended.panicked, env)
    run_with job invoker (diverges, env) t = (Ended.endless, env)

    -- Blobs are opened, and the system calls of the VM are served.
    unfoldable pub run_once : Job → Worker → Ended × Worker
    unfolding run_with open_blobs
    run_once job s =
        let (t, later) = next_turn s.turns in
        elim job.message.invoker [
          | none ↦ (Ended.panicked, s)
          | some invoker ↦
              let (e, env') = run_with job invoker (open_blobs job.message.blobs s.env) t in
              (e, record s { env = env'; turns = later })
        ]

    -- `ret.code` where the VM has no handle.
    abbrev pub given_up : Vm → TaskReturn → TaskReturn
    given_up vm ret = if vm.launched then ret else record ret { code = ReturnCode.launch_failed }

    abbrev pub again_or_stop :
        (Worker → Progress (TaskReturn × Worker))
        → ℕ
        → Vm
        → TaskReturn
        → Worker
        → Progress (TaskReturn × Worker)
    again_or_stop again cnt vm ret s =
        if cnt == 5 then done (given_up vm ret, record s { local = delete vm s.local }) else again s

    abbrev pub after_run :
        (Worker → Progress (TaskReturn × Worker))
        → ℕ
        → Vm
        → TaskReturn
        → Ended × Worker
        → Progress (TaskReturn × Worker)
    after_run again cnt vm ret (Ended.returned r, s) =
        done (r, record s { local = release vm s.local })
    after_run again cnt vm ret (Ended.stopped e, s) = again_or_stop again cnt vm ret s
    after_run again cnt vm ret (Ended.failed e, s) = again_or_stop again cnt vm ret s
    after_run again cnt vm ret (Ended.panicked, s) = panicked
    after_run again cnt vm ret (Ended.endless, s) = endless
    after_run again cnt vm ret (Ended.waiting, s) = waiting

    -- A failed launch goes on with the next round without a look at the count.
    abbrev pub after_launch :
        (Vm → Worker → Progress (TaskReturn × Worker))
        → ℕ
        → Job
        → TaskReturn
        → Launch × Vm × Worker
        → Progress (TaskReturn × Worker)
    after_launch again cnt job ret (Launch.launched, vm, s) =
        after_run (again vm) cnt vm ret (run_once job s)
    after_launch again cnt job ret (Launch.failed, vm, s) = again vm s
    after_launch again cnt job ret (Launch.process_ended, vm, s) = exited

    -- The inner loop, with at most so many rounds.
    unfoldable pub attempts :
        ℕ → ℕ → Job → TaskReturn → Vm → Worker → Progress (TaskReturn × Worker)
    unfolding launch run_once
    attempts zero cnt job ret vm s = out_of_rounds
    attempts (suc n) cnt job ret vm s =
        after_launch (λ v t. attempts n (next_count cnt) job ret v t) (next_count cnt) job ret
          (launch vm s)

    -- `rpc::finish`; a failure is only logged.
    unfoldable pub finish : String → TaskReturn → Worker → Worker
    finish id r s = elim s.writes [
      | [] ↦ record s { finished = s.finished ++ (id, r) ∷ [] }
      | true ∷ later ↦ record s { finished = s.finished ++ (id, r) ∷ []; writes = later }
      | false ∷ later ↦ record s { writes = later }
    ]

    abbrev pub failure : ReturnCode → Worker → TaskReturn
    failure code s = record { code = code; payload = none; label = some s.env.world.label }

    abbrev pub finish_with : String → Progress (TaskReturn × Worker) → Progress Worker
    finish_with id (done (r, s)) = done (finish id r s)
    finish_with id panicked = panicked
    finish_with id exited = exited
    finish_with id waiting = waiting
    finish_with id endless = endless
    finish_with id out_of_rounds = out_of_rounds

    abbrev pub with_vm : ℕ → String → Job → Worker → Option (Option Vm × Local) → Progress Worker
    with_vm fuel id job s none = endless
    with_vm fuel id job s (some (none, m)) =
        let s' = record s { local = m } in
        done (finish id (failure ReturnCode.resource_exhausted s') s')
    with_vm fuel id job s (some (some vm, m)) =
        let s' = record s { local = m } in
        finish_with id (attempts fuel 0 job (failure ReturnCode.process_request_failed s') vm s')

    abbrev pub process_job : ℕ → String → Job → Worker → Progress Worker
    process_job fuel id job s =
        with_vm fuel id job s (try_allocate rounds job.function job.label s.local)

    -- The `unwrap`s on the fields of the message.
    abbrev pub job_of :
        InvokeMessage → Option Buckle → Option Component → Option Function → Option Job
    job_of m (some l) (some p) (some f) =
        some (record { function = f; label = l; privilege = p; message = m })
    job_of m _ _ _ = none

    abbrev pub process_parsed : ℕ → String → Option Job → Worker → Progress Worker
    process_parsed fuel id none s = panicked
    process_parsed fuel id (some job) s = process_job fuel id job s

    unfoldable pub process_task : ℕ → String → InvokeMessage → Worker → Progress Worker
    unfolding attempts finish try_allocate
    process_task fuel id m s =
        process_parsed fuel id (job_of m m.label m.gate_privilege m.function) s

    abbrev pub and_then :
        (Worker → Progress (Bool × Worker)) → Progress Worker → Progress (Bool × Worker)
    and_then f (done s) = f s
    and_then f panicked = panicked
    and_then f exited = exited
    and_then f waiting = waiting
    and_then f endless = endless
    and_then f out_of_rounds = out_of_rounds

    -- The outer loop, on what the scheduler answers, none where that fails: whether it was told to
    -- end. Where nothing is answered any more it waits.
    unfoldable pub wait_and_process :
        ℕ → List (Option SchedResponse) → Worker → Progress (Bool × Worker)
    unfolding process_task
    wait_and_process fuel [] s = done (false, s)
    wait_and_process fuel (none ∷ rest) s = wait_and_process fuel rest s
    wait_and_process fuel (some SchedResponse.terminate ∷ rest) s = done (true, s)
    wait_and_process fuel (some (SchedResponse.process_task id none) ∷ rest) s =
        wait_and_process fuel rest s
    wait_and_process fuel (some (SchedResponse.process_task id (some m)) ∷ rest) s =
        and_then (wait_and_process fuel rest) (process_task fuel id m s)
    wait_and_process fuel (some SchedResponse.fail ∷ rest) s = wait_and_process fuel rest s
    wait_and_process fuel (some (SchedResponse.success r) ∷ rest) s = wait_and_process fuel rest s
    wait_and_process fuel (some SchedResponse.pong ∷ rest) s = wait_and_process fuel rest s
    wait_and_process fuel (some SchedResponse.no_kind ∷ rest) s = wait_and_process fuel rest s
