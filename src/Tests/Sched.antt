-- ===== src/Tests/Sched.antt =====
-- The theorems about the resource manager, at concrete inputs.
use faasten.Base.{some, [], ◌∷◌}
use faasten.Fs.Types.{Function}
use faasten.Sched.Manager.{SocketAddr, ResourceInfo, new_manager}
use faasten.Sched.Calls.{ManagerCall, go_on, Sane, started-Sane}

abbrev pub thumbnail : Function
thumbnail = record { memory = 128; app_image = "t"; runtime_image = "py"; kernel = "k" }

abbrev worker_addr : SocketAddr
worker_addr = record { ip = 7; port = 80 }

abbrev report : ResourceInfo
report = record { stats = (thumbnail, 0) ∷ []; total_mem = 512; free_mem = 256 }

started-Sane_example : Sane (
    go_on
      (ManagerCall.worker_idle worker_addr 3
        ∷ ManagerCall.node_report 7 report
        ∷ ManagerCall.worker_wanted thumbnail
        ∷ ManagerCall.node_gone 7
        ∷ [])
      (some new_manager))
started-Sane_example = started-Sane (
    ManagerCall.worker_idle worker_addr 3
    ∷ ManagerCall.node_report 7 report
    ∷ ManagerCall.worker_wanted thumbnail
    ∷ ManagerCall.node_gone 7
    ∷ [])
