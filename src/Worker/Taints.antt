-- ===== src/Worker/Taints.antt =====
-- The labels of the VMs that a worker leaves behind: snapfaas/src/worker.rs, snapfaas/src/vm.rs.
use faasten.Base.{
  ℕ, zero, suc, String, ◌≡◌, refl, ◌∙◌, Bool, true, false, Option, none, some, List, [], ◌∷◌, ◌==◌,
  number_eq, Bool-cases, Option-cases, inl, inr,
}
use faasten.Labels.{Labels, Component}
use faasten.Fs.World.{Serde}
use faasten.Syscall.Messages.{TaskReturn}
use faasten.Syscall.Server.{Digest}
use faasten.Syscall.Run.{Ended}
use faasten.Localrm.Manager.{Vm, Local}
use faasten.Localrm.Public.{
  IsPublic, AllPublic, GotPublic, release-AllPublic, delete-AllPublic, try_allocate-GotPublic,
}
use faasten.Sched.Protocol.{InvokeMessage, SchedResponse}
use faasten.Worker.{
  Launch, Progress, done, panicked, exited, waiting, endless, out_of_rounds, Worker, Job, launch,
  run_once, after_run, again_or_stop, after_launch, attempts, next_count, finish, with_vm,
  process_parsed, process_task, and_then, wait_and_process, finish_with,
}

module _ ⦃L : Labels⦄ ⦃S : Serde⦄ where
  -- A launch changes neither the label of its VM nor the VMs that are kept.
  record IsLaunch (vm : Vm) (s : Worker) (r : Launch × Vm × Worker) : Type 0 where
    label : r.1.label ≡ vm.label
    local : r.2.local ≡ s.local

  launch_at :
      (vm : Vm) (s : Worker) (ls : List Launch)
      → vm.launched ≡ false
      → s.launches ≡ ls
      → IsLaunch vm s (launch vm s)
  unfolding launch
  launch_at vm s [] h e = rw (launch, h, e) (record { label = refl; local = refl })
  launch_at vm s (Launch.launched ∷ later) h e =
      rw (launch, h, e) (record { label = refl; local = refl })
  launch_at vm s (Launch.failed ∷ later) h e =
      rw (launch, h, e) (record { label = refl; local = refl })
  launch_at vm s (Launch.process_ended ∷ later) h e =
      rw (launch, h, e) (record { label = refl; local = refl })

  launch-IsLaunch : (vm : Vm) (s : Worker) → IsLaunch vm s (launch vm s)
  unfolding launch
  launch-IsLaunch vm s = elim (Bool-cases vm.launched) [
    | inl h ↦ rw (launch, h) (record { label = refl; local = refl })
    | inr h ↦ launch_at vm s s.launches h refl
  ]

  abbrev Public : Vm → Worker → Type 0
  Public vm s = IsPublic vm × AllPublic s.local

  launched-Public :
      (vm : Vm) (s : Worker) (r : Launch × Vm × Worker)
      → IsLaunch vm s r
      → Public vm s
      → Public r.1 r.2
  launched-Public vm s r l h = (l.label ∙ h.0, rw (l.local) h.1)

  module _ ⦃D : Digest⦄ (rounds : ℕ) (principals : Component → Option (List (List String))) where
    run_once-local : (job : Job) (s : Worker) → (run_once rounds principals job s).1.local ≡ s.local
    unfolding run_once
    run_once-local job s = elim (Option-cases job.message.invoker) [
      | inl e ↦ rw (run_once, e) refl
      | inr (i, e) ↦ rw (run_once, e) refl
    ]

    abbrev pub DonePublic : Progress (TaskReturn × Worker) → Type 0
    DonePublic (done (r, s)) = AllPublic s.local
    DonePublic _ = Unit

    again_or_stop-DonePublic :
        (again : Worker → Progress (TaskReturn × Worker)) (cnt : ℕ) (vm : Vm) (ret : TaskReturn)
        (s : Worker)
        → Public vm s
        → DonePublic (again s)
        → DonePublic (again_or_stop rounds principals again cnt vm ret s)
    again_or_stop-DonePublic again cnt vm ret s h k = elim (Bool-cases (cnt == 5)) [
      | inl e ↦ rw (again_or_stop, e) (delete-AllPublic vm s.local h.1)
      | inr e ↦ rw (again_or_stop, e) k
    ]

    after_run-DonePublic :
        (again : Worker → Progress (TaskReturn × Worker)) (cnt : ℕ) (vm : Vm) (ret : TaskReturn)
        (r : Ended × Worker)
        → Public vm r.1
        → DonePublic (again r.1)
        → DonePublic (after_run rounds principals again cnt vm ret r)
    after_run-DonePublic again cnt vm ret (Ended.returned x, s) h k =
        release-AllPublic vm s.local h.0 h.1
    after_run-DonePublic again cnt vm ret (Ended.stopped x, s) h k =
        again_or_stop-DonePublic again cnt vm ret s h k
    after_run-DonePublic again cnt vm ret (Ended.failed x, s) h k =
        again_or_stop-DonePublic again cnt vm ret s h k
    after_run-DonePublic again cnt vm ret (Ended.panicked, s) h k = tt
    after_run-DonePublic again cnt vm ret (Ended.endless, s) h k = tt
    after_run-DonePublic again cnt vm ret (Ended.waiting, s) h k = tt

    after_launch-DonePublic :
        (again : Vm → Worker → Progress (TaskReturn × Worker)) (cnt : ℕ) (job : Job)
        (ret : TaskReturn) (r : Launch × Vm × Worker)
        → ((v : Vm) (t : Worker) → Public v t → DonePublic (again v t))
        → Public r.1 r.2
        → DonePublic (after_launch rounds principals again cnt job ret r)
    after_launch-DonePublic again cnt job ret (Launch.launched, vm, s) k h =
        let p : Public vm (run_once rounds principals job s).1 =
          (h.0, rw (run_once-local job s) h.1) in
        after_run-DonePublic (again vm) cnt vm ret (run_once rounds principals job s) p
          (k vm (run_once rounds principals job s).1 p)
    after_launch-DonePublic again cnt job ret (Launch.failed, vm, s) k h = k vm s h
    after_launch-DonePublic again cnt job ret (Launch.process_ended, vm, s) k h = tt

    attempts-DonePublic :
        (n cnt : ℕ) (job : Job) (ret : TaskReturn) (vm : Vm) (s : Worker)
        → Public vm s
        → DonePublic (attempts rounds principals n cnt job ret vm s)
    unfolding attempts
    attempts-DonePublic zero cnt job ret vm s h = tt
    attempts-DonePublic (suc n) cnt job ret vm s h =
        after_launch-DonePublic (λ v t. attempts rounds principals n (next_count cnt) job ret v t)
          (next_count cnt) job ret (launch vm s)
          (λ v t p. attempts-DonePublic n (next_count cnt) job ret v t p)
          (launched-Public vm s (launch vm s) (launch-IsLaunch vm s) h)

    finish_at :
        (id : String) (r : TaskReturn) (s : Worker) (ws : List Bool)
        → s.writes ≡ ws
        → (finish rounds principals id r s).local ≡ s.local
    unfolding finish
    finish_at id r s [] e = rw (finish, e) refl
    finish_at id r s (true ∷ later) e = rw (finish, e) refl
    finish_at id r s (false ∷ later) e = rw (finish, e) refl

    finish-local :
        (id : String) (r : TaskReturn) (s : Worker)
        → (finish rounds principals id r s).local ≡ s.local
    finish-local id r s = finish_at id r s s.writes refl

    abbrev KeptPublic : Progress Worker → Type 0
    KeptPublic (done s) = AllPublic s.local
    KeptPublic _ = Unit

    finish_with-KeptPublic :
        (id : String) (p : Progress (TaskReturn × Worker))
        → DonePublic p
        → KeptPublic (finish_with rounds principals id p)
    finish_with-KeptPublic id (done (r, s)) h = rw (finish-local id r s) h
    finish_with-KeptPublic id panicked h = tt
    finish_with-KeptPublic id exited h = tt
    finish_with-KeptPublic id waiting h = tt
    finish_with-KeptPublic id endless h = tt
    finish_with-KeptPublic id out_of_rounds h = tt

    with_vm-KeptPublic :
        (fuel : ℕ) (id : String) (job : Job) (s : Worker) (o : Option (Option Vm × Local))
        → GotPublic o
        → KeptPublic (with_vm rounds principals fuel id job s o)
    with_vm-KeptPublic fuel id job s none h = tt
    with_vm-KeptPublic fuel id job s (some (none, m)) h =
        rw (finish-local id _ (record s { local = m })) h
    with_vm-KeptPublic fuel id job s (some (some vm, m)) h =
        finish_with-KeptPublic id _ (attempts-DonePublic fuel 0 job _ vm (record s { local = m }) h)

    parsed-KeptPublic :
        (fuel : ℕ) (id : String) (o : Option Job) (s : Worker)
        → AllPublic s.local
        → KeptPublic (process_parsed rounds principals fuel id o s)
    parsed-KeptPublic fuel id none s h = tt
    parsed-KeptPublic fuel id (some job) s h =
        with_vm-KeptPublic fuel id job s _
          (try_allocate-GotPublic rounds job.function job.label s.local h)

    process_task-KeptPublic :
        (fuel : ℕ) (id : String) (m : InvokeMessage) (s : Worker)
        → AllPublic s.local
        → KeptPublic (process_task rounds principals fuel id m s)
    unfolding process_task
    process_task-KeptPublic fuel id m s h = parsed-KeptPublic fuel id _ s h

    -- What the loop leaves behind, where it has not ended otherwise.
    abbrev pub StaysPublic : Progress (Bool × Worker) → Type 0
    StaysPublic (done (b, s)) = AllPublic s.local
    StaysPublic _ = Unit

    and_then-StaysPublic :
        (f : Worker → Progress (Bool × Worker)) (p : Progress Worker)
        → ((s : Worker) → AllPublic s.local → StaysPublic (f s))
        → KeptPublic p
        → StaysPublic (and_then rounds principals f p)
    and_then-StaysPublic f (done s) k h = k s h
    and_then-StaysPublic f panicked k h = tt
    and_then-StaysPublic f exited k h = tt
    and_then-StaysPublic f waiting k h = tt
    and_then-StaysPublic f endless k h = tt
    and_then-StaysPublic f out_of_rounds k h = tt

    -- Whatever tasks a worker is given, under whatever labels, and whatever their VMs do: every VM
    -- that it keeps for later tasks has the public label again, if those that were kept before had.
    pub wait_and_process-StaysPublic :
        (fuel : ℕ) (responses : List (Option SchedResponse)) (s : Worker)
        → AllPublic s.local
        → StaysPublic (wait_and_process rounds principals fuel responses s)
    unfolding wait_and_process
    wait_and_process-StaysPublic fuel [] s h = h
    wait_and_process-StaysPublic fuel (none ∷ rest) s h = wait_and_process-StaysPublic fuel rest s h
    wait_and_process-StaysPublic fuel (some SchedResponse.terminate ∷ rest) s h = h
    wait_and_process-StaysPublic fuel (some (SchedResponse.process_task id none) ∷ rest) s h =
        wait_and_process-StaysPublic fuel rest s h
    wait_and_process-StaysPublic fuel (some (SchedResponse.process_task id (some m)) ∷ rest) s h =
        and_then-StaysPublic (wait_and_process rounds principals fuel rest)
          (process_task rounds principals fuel id m s)
          (λ t k. wait_and_process-StaysPublic fuel rest t k)
          (process_task-KeptPublic fuel id m s h)
    wait_and_process-StaysPublic fuel (some SchedResponse.fail ∷ rest) s h =
        wait_and_process-StaysPublic fuel rest s h
    wait_and_process-StaysPublic fuel (some (SchedResponse.success r) ∷ rest) s h =
        wait_and_process-StaysPublic fuel rest s h
    wait_and_process-StaysPublic fuel (some SchedResponse.pong ∷ rest) s h =
        wait_and_process-StaysPublic fuel rest s h
    wait_and_process-StaysPublic fuel (some SchedResponse.no_kind ∷ rest) s h =
        wait_and_process-StaysPublic fuel rest s h
