-- ===== src/Tests/Localrm.antt =====
-- The theorems about the VMs of a node, at concrete inputs.
use faasten.Base.{◌+◌, ◌≡◌, true, none, some, [], ◌∷◌, arith}
use faasten.Localrm.Manager.{Local, dummy_evict, try_allocate_memory}
use faasten.Localrm.Memory.{cached_mem, try_allocate_memory_lem, dummy_evict-stuck}
use faasten.Tests.Setup.{number_labels}
use faasten.Tests.Sched.{thumbnail}

-- One VM of 128 MB is cached; 300 MB are in use and 84 MB are free.
abbrev node : Local
node = record {
  cache =
      (thumbnail, record { id = 0; function = thumbnail; label = (0, 0); launched = true } ∷ [])
      ∷ [];
  total_num_vms = 4;
  total_mem = 512;
  free_mem = 84;
  reports = [];
}

try_allocate_memory_lem_example :
    (m : Local) × ((try_allocate_memory 1 100 node ≡ some (true, m))
      × (m.free_mem + cached_mem m.cache + 100 ≡ 212))
try_allocate_memory_lem_example =
    try_allocate_memory_lem 1 100 node (omega arith) (omega arith) (omega arith)

dummy_evict-stuck_example : dummy_evict 9 200 node ≡ none
dummy_evict-stuck_example = dummy_evict-stuck 9 200 node (omega arith) (omega arith)
