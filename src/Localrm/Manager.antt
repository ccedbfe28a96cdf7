-- ===== src/Localrm/Manager.antt =====
-- `ResourceManager` of snapfaas/src/resource_manager.rs, and `Worker::try_allocate` of
-- snapfaas/src/worker.rs. Memory is in MB. The reports to the scheduler are kept in a list, the last
-- one first; whether they arrive is not looked at. The order of the lists of VMs is that of the map.
use faasten.Base.{
  ℕ, zero, suc, ◌+◌, ◌-◌, Bool, true, false, Option, none, some, List, [], ◌∷◌, ◌++◌, length,
  if◌then◌else◌, ltb, leb, ◌==◌, number_eq,
}
use faasten.Base.Dict
use faasten.Base.Dict.{Dict}
use faasten.Labels.{Labels, Buckle, public, can_flow_to}
use faasten.Fs.Types.{Function}
use faasten.Sched.Manager.{pop, function_eq, ResourceInfo}

module _ ⦃L : Labels⦄ where
  -- Of the handle, whether there is one.
  pub record Vm : Type 0 where
    pub id : ℕ
    pub function : Function
    pub label : Buckle
    pub launched : Bool

  pub record Local : Type 0 where
    pub cache : Dict Function (List Vm)
    pub total_num_vms : ℕ
    pub total_mem : ℕ
    pub free_mem : ℕ
    pub reports : List ResourceInfo

  -- What the machine has is what can be used.
  abbrev pub new_local : ℕ → Local
  new_local mem = record {
    cache = [];
    total_num_vms = 0;
    total_mem = mem;
    free_mem = mem;
    reports = [];
  }

  unfoldable pub set_total_mem : ℕ → Local → Local
  set_total_mem mem m =
      if ltb m.total_mem mem
      then m
      else if mem == 0
      then m
      else record m { total_mem = mem; free_mem = mem }

  abbrev pub numbers : Dict Function (List Vm) → List (Function × ℕ)
  numbers [] = []
  numbers ((f, vms) ∷ rest) = (f, length vms) ∷ numbers rest

  unfoldable pub update_scheduler : Local → Local
  update_scheduler m = record m {
    reports =
        record { stats = numbers m.cache; total_mem = m.total_mem; free_mem = m.free_mem }
        ∷ m.reports;
  }

  abbrev pub popped : Option (List Vm) → Option (Vm × List Vm)
  popped none = none
  popped (some vms) = pop vms

  abbrev pub take_vm : Function → Option (Vm × List Vm) → Local → Option Vm × Local
  take_vm f none m = (none, m)
  take_vm f (some (vm, vms)) m = (some vm, record m { cache = Dict.insert f vms m.cache })

  unfoldable pub get_cached_vm : Function → Local → Option Vm × Local
  unfolding update_scheduler pop
  get_cached_vm f m =
      let (vm, m') = take_vm f (popped (Dict.get f m.cache)) m in (vm, update_scheduler m')

  abbrev pub list_of : Option (List Vm) → List Vm
  list_of none = []
  list_of (some vms) = vms

  unfoldable pub release : Vm → Local → Local
  unfolding update_scheduler
  release vm m = update_scheduler (record m {
    cache = Dict.insert vm.function (list_of (Dict.get vm.function m.cache) ++ (vm ∷ [])) m.cache;
  })

  unfoldable pub delete : Vm → Local → Local
  unfolding update_scheduler
  delete vm m = update_scheduler (record m { free_mem = m.free_mem + vm.function.memory })

  -- One pass of the inner loop: the last VM of each list goes. What is left, and what was freed.
  abbrev pub drop_last : Option (Vm × List Vm) → List Vm × ℕ
  drop_last none = ([], 0)
  drop_last (some (vm, vms)) = (vms, vm.function.memory)

  unfoldable pub sweep : Dict Function (List Vm) → Dict Function (List Vm) × ℕ
  unfolding pop
  sweep [] = ([], 0)
  sweep ((f, vms) ∷ rest) =
      let (rest', freed) = sweep rest in
      let (vms', mem) = drop_last (pop vms) in ((f, vms') ∷ rest', mem + freed)

  -- The outer loop, with at most so many passes: no result where they are used up.
  unfoldable pub evict_loop : ℕ → ℕ → ℕ → Local → Option Local
  unfolding sweep
  evict_loop zero mem freed m = if ltb freed mem then none else some m
  evict_loop (suc n) mem freed m =
      let (cache, more) = sweep m.cache in
      let again =
        evict_loop n mem (freed + more)
          (record m { cache = cache; free_mem = m.free_mem + more }) in
      if ltb freed mem then again else some m

  abbrev pub evicted : Option Local → Option (Bool × Local)
  evicted none = none
  evicted (some m) = some (true, m)

  unfoldable pub dummy_evict : ℕ → ℕ → Local → Option (Bool × Local)
  unfolding evict_loop
  dummy_evict rounds mem m =
      if ltb m.total_mem mem then some (false, m) else evicted (evict_loop rounds mem 0 m)

  abbrev pub reserve : ℕ → Option (Bool × Local) → Option (Bool × Local)
  reserve mem none = none
  reserve mem (some (false, m)) = some (false, m)
  reserve mem (some (true, m)) =
      some (true, record m { free_mem = m.free_mem - mem; total_num_vms = suc m.total_num_vms })

  unfoldable pub try_allocate_memory : ℕ → ℕ → Local → Option (Bool × Local)
  unfolding dummy_evict
  try_allocate_memory rounds mem m =
      reserve mem (if leb mem m.free_mem then some (true, m) else dummy_evict rounds mem m)

  abbrev pub vm_for : Function → Option (Bool × Local) → Option (Option Vm × Local)
  vm_for f none = none
  vm_for f (some (false, m)) = some (none, m)
  vm_for f (some (true, m)) =
      some
        (some (record { id = m.total_num_vms; function = f; label = public; launched = false }), m)

  abbrev pub reported : Option (Option Vm × Local) → Option (Option Vm × Local)
  reported none = none
  reported (some (vm, m)) = some (vm, update_scheduler m)

  unfoldable pub new_vm : ℕ → Function → Local → Option (Option Vm × Local)
  unfolding try_allocate_memory update_scheduler
  new_vm rounds f m = reported (vm_for f (try_allocate_memory rounds f.memory m))

  -- `Worker::try_allocate`: a cached VM is taken only where its label flows to the payload's.
  unfoldable pub allocate_from :
      ℕ → Function → Buckle → Option Vm → Local → Option (Option Vm × Local)
  unfolding release new_vm
  allocate_from rounds f payload_label none m = new_vm rounds f m
  allocate_from rounds f payload_label (some vm) m =
      if can_flow_to vm.label payload_label
      then some (some vm, m)
      else new_vm rounds f (release vm m)

  unfoldable pub try_allocate : ℕ → Function → Buckle → Local → Option (Option Vm × Local)
  unfolding allocate_from get_cached_vm
  try_allocate rounds f payload_label m =
      let (found, m') = get_cached_vm f m in allocate_from rounds f payload_label found m'
