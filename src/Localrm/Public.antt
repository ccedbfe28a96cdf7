-- ===== src/Localrm/Public.antt =====
-- The labels of the VMs that a node keeps: snapfaas/src/resource_manager.rs, and `try_allocate` of
-- snapfaas/src/worker.rs.
use faasten.Base.{
  ℕ, zero, suc, ◌≡◌, refl, Bool, true, false, Option, none, some, List, [], ◌∷◌, ◌++◌, number_eq,
  All, All-append, Bool-cases, Option-cases, inl, inr, ltb, leb, ◌+◌,
}
use faasten.Base.Dict
use faasten.Base.Dict.{Dict}
use faasten.Labels.{Labels, Buckle, public, can_flow_to}
use faasten.Fs.Types.{Function}
use faasten.Sched.Manager.{pop, function_eq}
use faasten.Sched.Lists.{pop-All, get-All, insert-All}
use faasten.Localrm.Manager.{
  Vm, Local, try_allocate, release, delete, update_scheduler, popped, take_vm, get_cached_vm,
  list_of, drop_last, sweep, evict_loop, evicted, dummy_evict, reserve, try_allocate_memory, vm_for,
  reported, new_vm, allocate_from,
}

module _ ⦃L : Labels⦄ where
  abbrev pub IsPublic : Vm → Type 0
  IsPublic vm = vm.label ≡ public

  -- Every VM that is kept has the public label.
  abbrev pub AllPublic : Local → Type 0
  AllPublic m = All (λ e. All IsPublic e.1) m.cache

  -- Of a VM that was found, and of what is left.
  abbrev OnVm : Option (Vm × List Vm) → Type 0
  OnVm none = Unit
  OnVm (some (vm, vms)) = IsPublic vm × All IsPublic vms

  pop-OnVm : (vms : List Vm) → All IsPublic vms → OnVm (pop vms)
  pop-OnVm vms h = elim (Option-cases (pop vms)) [
    | inl e ↦ rw e tt
    | inr ((vm, rest), e) ↦ rw e (pop-All IsPublic vms vm rest h e)
  ]

  popped-OnVm : (f : Function) (m : Local) → AllPublic m → OnVm (popped (Dict.get f m.cache))
  popped-OnVm f m h = elim (Option-cases (Dict.get f m.cache)) [
    | inl e ↦ rw (popped, e) tt
    | inr (vms, e) ↦
        rw (popped, e) (pop-OnVm vms (get-All (λ x. All IsPublic x.1) m.cache f vms h e))
  ]

  abbrev pub FoundPublic : Option Vm × Local → Type 0
  FoundPublic (none, m) = AllPublic m
  FoundPublic (some vm, m) = IsPublic vm × AllPublic m

  take_vm-FoundPublic :
      (f : Function) (o : Option (Vm × List Vm)) (m : Local)
      → OnVm o
      → AllPublic m
      → FoundPublic (take_vm f o m)
  take_vm-FoundPublic f none m o h = h
  take_vm-FoundPublic f (some (vm, vms)) m o h =
      (o.0, insert-All (λ x. All IsPublic x.1) m.cache f vms h o.1)

  update_scheduler-AllPublic : (m : Local) → AllPublic m → AllPublic (update_scheduler m)
  unfolding update_scheduler
  update_scheduler-AllPublic m h = h

  told-FoundPublic :
      (r : Option Vm × Local) → FoundPublic r → FoundPublic (r.0, update_scheduler r.1)
  told-FoundPublic (none, m) h = update_scheduler-AllPublic m h
  told-FoundPublic (some vm, m) h = (h.0, update_scheduler-AllPublic m h.1)

  get_cached_vm-FoundPublic :
      (f : Function) (m : Local) → AllPublic m → FoundPublic (get_cached_vm f m)
  unfolding get_cached_vm
  get_cached_vm-FoundPublic f m h =
      told-FoundPublic (take_vm f (popped (Dict.get f m.cache)) m)
        (take_vm-FoundPublic f (popped (Dict.get f m.cache)) m (popped-OnVm f m h) h)

  list_of-All :
      (f : Function) (m : Local) → AllPublic m → All IsPublic (list_of (Dict.get f m.cache))
  list_of-All f m h = elim (Option-cases (Dict.get f m.cache)) [
    | inl e ↦ rw (list_of, e) tt
    | inr (vms, e) ↦ rw (list_of, e) (get-All (λ x. All IsPublic x.1) m.cache f vms h e)
  ]

  pub release-AllPublic :
      (vm : Vm) (m : Local) → IsPublic vm → AllPublic m → AllPublic (release vm m)
  unfolding release update_scheduler
  release-AllPublic vm m p h =
      insert-All (λ x. All IsPublic x.1) m.cache vm.function
        (list_of (Dict.get vm.function m.cache) ++ vm ∷ []) h
        (All-append IsPublic (list_of (Dict.get vm.function m.cache)) (vm ∷ [])
          (list_of-All vm.function m h) (p, tt))

  pub delete-AllPublic : (vm : Vm) (m : Local) → AllPublic m → AllPublic (delete vm m)
  unfolding delete update_scheduler
  delete-AllPublic vm m h = h

  drop_last-All : (o : Option (Vm × List Vm)) → OnVm o → All IsPublic (drop_last o).0
  drop_last-All none h = tt
  drop_last-All (some (vm, vms)) h = h.1

  sweep-All :
      (cache : Dict Function (List Vm))
      → All (λ e. All IsPublic e.1) cache
      → All (λ e. All IsPublic e.1) (sweep cache).0
  unfolding sweep
  sweep-All [] h = tt
  sweep-All ((f, vms) ∷ rest) h = (drop_last-All (pop vms) (pop-OnVm vms h.0), sweep-All rest h.1)

  abbrev Left : Option Local → Type 0
  Left none = Unit
  Left (some m) = AllPublic m

  evict_loop-Left : (n mem freed : ℕ) (m : Local) → AllPublic m → Left (evict_loop n mem freed m)
  unfolding evict_loop
  evict_loop-Left zero mem freed m h = elim (Bool-cases (ltb freed mem)) [
    | inl e ↦ rw (evict_loop, e) tt
    | inr e ↦ rw (evict_loop, e) h
  ]
  evict_loop-Left (suc n) mem freed m h = elim (Bool-cases (ltb freed mem)) [
    | inl e ↦
        rw (evict_loop, e)
          (evict_loop-Left n mem _
            (record m { cache = (sweep m.cache).0; free_mem = m.free_mem + (sweep m.cache).1 })
            (sweep-All m.cache h))
    | inr e ↦ rw (evict_loop, e) h
  ]

  abbrev LeftPublic : Option (Bool × Local) → Type 0
  LeftPublic none = Unit
  LeftPublic (some (b, m)) = AllPublic m

  evicted-LeftPublic : (o : Option Local) → Left o → LeftPublic (evicted o)
  evicted-LeftPublic none h = tt
  evicted-LeftPublic (some m) h = h

  dummy_evict-LeftPublic :
      (rounds mem : ℕ) (m : Local) → AllPublic m → LeftPublic (dummy_evict rounds mem m)
  unfolding dummy_evict
  dummy_evict-LeftPublic rounds mem m h = elim (Bool-cases (ltb m.total_mem mem)) [
    | inl e ↦ rw e h
    | inr e ↦
        rw e (evicted-LeftPublic (evict_loop rounds mem 0 m) (evict_loop-Left rounds mem 0 m h))
  ]

  reserve-LeftPublic :
      (mem : ℕ) (o : Option (Bool × Local)) → LeftPublic o → LeftPublic (reserve mem o)
  reserve-LeftPublic mem none h = tt
  reserve-LeftPublic mem (some (false, m)) h = h
  reserve-LeftPublic mem (some (true, m)) h = h

  try_allocate_memory-LeftPublic :
      (rounds mem : ℕ) (m : Local) → AllPublic m → LeftPublic (try_allocate_memory rounds mem m)
  unfolding try_allocate_memory
  try_allocate_memory-LeftPublic rounds mem m h = elim (Bool-cases (leb mem m.free_mem)) [
    | inl e ↦ rw e h
    | inr e ↦
        rw e (
          reserve-LeftPublic mem (dummy_evict rounds mem m) (dummy_evict-LeftPublic rounds mem m h))
  ]

  -- The outcome of an allocation, if there is one.
  abbrev pub GotPublic : Option (Option Vm × Local) → Type 0
  GotPublic none = Unit
  GotPublic (some r) = FoundPublic r

  vm_for-GotPublic :
      (f : Function) (o : Option (Bool × Local)) → LeftPublic o → GotPublic (vm_for f o)
  vm_for-GotPublic f none h = tt
  vm_for-GotPublic f (some (false, m)) h = h
  vm_for-GotPublic f (some (true, m)) h = (refl, h)

  reported-GotPublic : (o : Option (Option Vm × Local)) → GotPublic o → GotPublic (reported o)
  reported-GotPublic none h = tt
  reported-GotPublic (some (none, m)) h = update_scheduler-AllPublic m h
  reported-GotPublic (some (some vm, m)) h = (h.0, update_scheduler-AllPublic m h.1)

  new_vm-GotPublic :
      (rounds : ℕ) (f : Function) (m : Local) → AllPublic m → GotPublic (new_vm rounds f m)
  unfolding new_vm
  new_vm-GotPublic rounds f m h =
      reported-GotPublic (vm_for f (try_allocate_memory rounds f.memory m)) (
        vm_for-GotPublic f (try_allocate_memory rounds f.memory m)
          (try_allocate_memory-LeftPublic rounds f.memory m h))

  allocate_from-GotPublic :
      (rounds : ℕ) (f : Function) (l : Buckle) (r : Option Vm × Local)
      → FoundPublic r
      → GotPublic (allocate_from rounds f l r.0 r.1)
  unfolding allocate_from
  allocate_from-GotPublic rounds f l (none, m) h = new_vm-GotPublic rounds f m h
  allocate_from-GotPublic rounds f l (some vm, m) h = elim (Bool-cases (can_flow_to vm.label l)) [
    | inl e ↦ rw (allocate_from, e) h
    | inr e ↦
        rw (allocate_from, e)
          (new_vm-GotPublic rounds f (release vm m) (release-AllPublic vm m h.0 h.1))
  ]

  pub try_allocate-GotPublic :
      (rounds : ℕ) (f : Function) (l : Buckle) (m : Local)
      → AllPublic m
      → GotPublic (try_allocate rounds f l m)
  unfolding try_allocate
  try_allocate-GotPublic rounds f l m h =
      allocate_from-GotPublic rounds f l (get_cached_vm f m) (get_cached_vm-FoundPublic f m h)
