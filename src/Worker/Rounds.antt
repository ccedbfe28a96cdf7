-- ===== src/Worker/Rounds.antt =====
-- How many rounds the launch loop of snapfaas/src/worker.rs takes.
use faasten.Base.{
  ℕ, zero, suc, ◌^◌, String, ◌+◌, ◌≤◌, ◌<◌, ◌≡◌, ◌≢◌, refl, true, false, Option, some, List, [],
  ◌∷◌, ◌++◌, ◌==◌, number_eq, Bool-cases, inl, inr, arith, test_ne,
}
use faasten.Labels.{Labels, Component}
use faasten.Fs.World.{Serde}
use faasten.Syscall.Messages.{TaskReturn}
use faasten.Syscall.Server.{Digest, pure}
use faasten.Syscall.Run.{Ended, ProcessorError, run}
use faasten.Localrm.Manager.{Vm}
use faasten.Worker.{
  Launch, Progress, out_of_rounds, Worker, Job, launch, next_turn, run_once, after_run,
  again_or_stop, after_launch, attempts, next_count,
}

-- So many launches that fail.
abbrev pub failures : ℕ → List Launch
failures zero = []
failures (suc k) = Launch.failed ∷ failures k

module _ ⦃L : Labels⦄ ⦃S : Serde⦄ ⦃D : Digest⦄ (rounds : ℕ)
    (principals : Component → Option (List (List String))) where
  abbrev Loops : Progress (TaskReturn × Worker) → Type 0
  Loops p = p ≡ out_of_rounds

  again_or_stop-ends :
      (again : Worker → Progress (TaskReturn × Worker)) (cnt : ℕ) (vm : Vm) (ret : TaskReturn)
      (s : Worker)
      → (cnt ≢ 5 → ¬ Loops (again s))
      → ¬ Loops (again_or_stop rounds principals again cnt vm ret s)
  again_or_stop-ends again cnt vm ret s k = elim (Bool-cases (cnt == 5)) [
    | inl e ↦ rw (again_or_stop, e) (λ p. cc)
    | inr e ↦ rw (again_or_stop, e) (k (λ q. ground arith))
  ]

  after_run-ends :
      (again : Worker → Progress (TaskReturn × Worker)) (cnt : ℕ) (vm : Vm) (ret : TaskReturn)
      (r : Ended × Worker)
      → (cnt ≢ 5 → ¬ Loops (again r.1))
      → ¬ Loops (after_run rounds principals again cnt vm ret r)
  after_run-ends again cnt vm ret (Ended.returned x, s) k = λ p. cc
  after_run-ends again cnt vm ret (Ended.stopped x, s) k = again_or_stop-ends again cnt vm ret s k
  after_run-ends again cnt vm ret (Ended.failed x, s) k = again_or_stop-ends again cnt vm ret s k
  after_run-ends again cnt vm ret (Ended.panicked, s) k = λ p. cc
  after_run-ends again cnt vm ret (Ended.endless, s) k = λ p. cc
  after_run-ends again cnt vm ret (Ended.waiting, s) k = λ p. cc

  launch-launched :
      (vm : Vm) (s : Worker) → vm.launched ≡ true → launch vm s ≡ (Launch.launched, vm, s)
  unfolding launch
  launch-launched vm s h = simp h refl

  launch-next :
      (vm : Vm) (s : Worker) (later : List Launch)
      → vm.launched ≡ false
      → s.launches ≡ Launch.launched ∷ later
      → launch vm s
        ≡ (Launch.launched, record vm { launched = true }, record s { launches = later })
  unfolding launch
  launch-next vm s later h e = simp (h, e) refl

  launch-failed :
      (vm : Vm) (s : Worker) (later : List Launch)
      → vm.launched ≡ false
      → s.launches ≡ Launch.failed ∷ later
      → launch vm s ≡ (Launch.failed, vm, record s { launches = later })
  unfolding launch
  launch-failed vm s later h e = simp (h, e) refl

  count_next : (cnt : ℕ) → suc cnt < 2 ^ 32 → next_count cnt ≡ suc cnt
  count_next cnt h = omega arith

  -- With a VM that runs, as many rounds as the count leaves are enough.
  running-ends :
      (n cnt : ℕ) (job : Job) (ret : TaskReturn) (vm : Vm) (s : Worker)
      → vm.launched ≡ true
      → 0 < n
      → cnt + n ≡ 5
      → ¬ Loops (attempts rounds principals n cnt job ret vm s)
  unfolding attempts
  running-ends zero cnt job ret vm s h p e = absurd (omega arith)
  running-ends (suc n) cnt job ret vm s h p e =
      rw (launch-launched vm s h, after_launch, count_next cnt (omega arith))
        (after_run-ends (λ t. attempts rounds principals n (suc cnt) job ret vm t) (suc cnt) vm ret
          (run_once rounds principals job s)
          (λ d.
            running-ends n (suc cnt) job ret vm (run_once rounds principals job s).1 h (omega arith)
              (omega arith)))

  some_launch-ends :
      (n cnt k : ℕ) (later : List Launch) (job : Job) (ret : TaskReturn) (vm : Vm) (s : Worker)
      → vm.launched ≡ false
      → s.launches ≡ failures k ++ Launch.launched ∷ later
      → k < n
      → cnt + n ≡ 5
      → ¬ Loops (attempts rounds principals n cnt job ret vm s)
  unfolding attempts
  some_launch-ends zero cnt k later job ret vm s h e p q = absurd (omega arith)
  some_launch-ends (suc n) cnt zero later job ret vm s h e p q =
      let vm' : Vm = record vm { launched = true } in
      let s' : Worker = record s { launches = later } in
      rw (launch-next vm s later h e, after_launch, count_next cnt (omega arith))
        (after_run-ends (λ t. attempts rounds principals n (suc cnt) job ret vm' t) (suc cnt) vm'
          ret (run_once rounds principals job s')
          (λ d.
            running-ends n (suc cnt) job ret vm' (run_once rounds principals job s').1 refl
              (omega arith) (omega arith)))
  some_launch-ends (suc n) cnt (suc k) later job ret vm s h e p q =
      rw
        (
          launch-failed vm s (failures k ++ Launch.launched ∷ later) h e,
          after_launch,
          count_next cnt (omega arith),
        )
        (some_launch-ends n (suc cnt) k later job ret vm
          (record s { launches = failures k ++ Launch.launched ∷ later }) h refl (omega arith)
          (omega arith))

  -- Where at most four launches fail before one succeeds, the loop takes at most five rounds,
  -- whatever the VM does in its runs.
  pub attempts-end :
      (k : ℕ) (later : List Launch) (job : Job) (ret : TaskReturn) (vm : Vm) (s : Worker)
      → vm.launched ≡ false
      → s.launches ≡ failures k ++ Launch.launched ∷ later
      → k < 5
      → attempts rounds principals 5 0 job ret vm s ≢ out_of_rounds
  attempts-end k later job ret vm s h e p =
      some_launch-ends 5 0 k later job ret vm s h e p (omega arith)

  -- A run whose VM is gone, for a task without blobs.
  record IsLost (s : Worker) (r : Ended × Worker) : Type 0 where
    ended : r.0 ≡ Ended.stopped ProcessorError.write_failed
    turns : r.1.turns ≡ []
    launches : r.1.launches ≡ s.launches

  run_once-IsLost :
      (job : Job) (invoker : Component) (ps : List (List String)) (s : Worker)
      → s.turns ≡ []
      → job.message.blobs ≡ []
      → job.message.invoker ≡ some invoker
      → principals invoker ≡ some ps
      → IsLost s (run_once rounds principals job s)
  unfolding run_once pure
  run_once-IsLost job invoker ps s t b i p =
      rw (run_once, i, b, run, p)
        (rw (t, next_turn) (record { ended = refl; turns = refl; launches = refl }))

  -- The loop with the VM gone, past its fifth round.
  module _ (job : Job) (invoker : Component) (ps : List (List String)) (ret : TaskReturn)
      (b : job.message.blobs ≡ []) (i : job.message.invoker ≡ some invoker)
      (p : principals invoker ≡ some ps) where
    lost-Loops :
        (again : Worker → Progress (TaskReturn × Worker)) (cnt : ℕ) (vm : Vm) (r : Ended × Worker)
        → r.0 ≡ Ended.stopped ProcessorError.write_failed
        → cnt ≢ 5
        → Loops (again r.1)
        → Loops (after_run rounds principals again cnt vm ret r)
    lost-Loops again cnt vm (e, s) h n k = rw h (rw (again_or_stop, test_ne cnt 5 n) k)

    running-Loops :
        (n cnt : ℕ) (vm : Vm) (s : Worker)
        → vm.launched ≡ true
        → s.turns ≡ []
        → 5 ≤ cnt
        → cnt + n < 2 ^ 31
        → Loops (attempts rounds principals n cnt job ret vm s)
    unfolding attempts
    running-Loops zero cnt vm s h t c d = refl
    running-Loops (suc n) cnt vm s h t c d =
        let l = run_once-IsLost job invoker ps s t b i p in
        rw (launch-launched vm s h, after_launch, count_next cnt (omega arith))
          (lost-Loops (λ u. attempts rounds principals n (suc cnt) job ret vm u) (suc cnt) vm
            (run_once rounds principals job s) l.ended (omega arith)
            (running-Loops n (suc cnt) vm (run_once rounds principals job s).1 h l.turns
              (omega arith) (omega arith)))

    failing-Loops :
        (n cnt k : ℕ) (later : List Launch) (vm : Vm) (s : Worker)
        → vm.launched ≡ false
        → s.launches ≡ failures k ++ Launch.launched ∷ later
        → s.turns ≡ []
        → 5 ≤ cnt + k
        → cnt + n < 2 ^ 31
        → Loops (attempts rounds principals n cnt job ret vm s)
    unfolding attempts
    failing-Loops zero cnt k later vm s h e t c d = refl
    failing-Loops (suc n) cnt zero later vm s h e t c d =
        let vm' : Vm = record vm { launched = true } in
        let s' : Worker = record s { launches = later } in
        let l = run_once-IsLost job invoker ps s' t b i p in
        rw (launch-next vm s later h e, after_launch, count_next cnt (omega arith))
          (lost-Loops (λ u. attempts rounds principals n (suc cnt) job ret vm' u) (suc cnt) vm'
            (run_once rounds principals job s') l.ended (omega arith)
            (running-Loops n (suc cnt) vm' (run_once rounds principals job s').1 refl l.turns
              (omega arith) (omega arith)))
    failing-Loops (suc n) cnt (suc k) later vm s h e t c d =
        rw
          (
            launch-failed vm s (failures k ++ Launch.launched ∷ later) h e,
            after_launch,
            count_next cnt (omega arith),
          )
          (failing-Loops n (suc cnt) k later vm
            (record s { launches = failures k ++ Launch.launched ∷ later }) h refl t (omega arith)
            (omega arith))

  -- Where a VM is not launched yet, five or more launches fail before one succeeds, and no request
  -- reaches the VM then, the loop still goes on after every number of rounds below 2^31: the count
  -- has passed the one at which it gives up, and no further count is that one before it leaves the
  -- range of its type. The task has no blobs, and an invoker whose principals can be told.
  pub attempts-loop :
      (n k : ℕ) (later : List Launch) (job : Job) (invoker : Component) (ps : List (List String))
      (ret : TaskReturn) (vm : Vm) (s : Worker)
      → n < 2 ^ 31
      → vm.launched ≡ false
      → s.launches ≡ failures k ++ Launch.launched ∷ later
      → s.turns ≡ []
      → 5 ≤ k
      → job.message.blobs ≡ []
      → job.message.invoker ≡ some invoker
      → principals invoker ≡ some ps
      → attempts rounds principals n 0 job ret vm s ≡ out_of_rounds
  attempts-loop n k later job invoker ps ret vm s m h e t c b i p =
      failing-Loops job invoker ps ret b i p n 0 k later vm s h e t (omega arith) (omega arith)
