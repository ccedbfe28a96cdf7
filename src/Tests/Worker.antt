-- ===== src/Tests/Worker.antt =====
-- The theorems about the worker's loop and the channel of a VM, at concrete inputs.
use faasten.Base.{
  ℕ, String, ◌≡◌, ◌≢◌, refl, true, false, Option, none, some, List, [], ◌∷◌, arith, number_eq,
}
use faasten.Syscall.Messages.{TaskReturn, ReturnCode}
use faasten.Localrm.Manager.{Vm, Local}
use faasten.Sched.Protocol.{InvokeMessage, SchedResponse}
use faasten.Worker.{Launch, out_of_rounds, Worker, Job, attempts, wait_and_process}
use faasten.Worker.Rounds.{attempts-end, attempts-loop}
use faasten.Worker.Taints.{StaysPublic, wait_and_process-StaysPublic}
use faasten.Tests.Setup.{number_labels, doc_serde}
use faasten.Tests.Sched.{thumbnail}
use faasten.Tests.Syscall.{one_digest, server, session}

-- A task under a secret label.
abbrev secret_invoke : InvokeMessage
secret_invoke = record {
  function = some thumbnail;
  label = some (4, 0);
  gate_privilege = some 0;
  payload = [];
  blobs = [];
  headers = [];
  sync = true;
  invoker = some 0;
}

abbrev node : Local
node = record {
  cache =
      (thumbnail, record { id = 0; function = thumbnail; label = (0, 0); launched = true } ∷ [])
      ∷ [];
  total_num_vms = 1;
  total_mem = 512;
  free_mem = 384;
  reports = [];
}

abbrev worker : Worker
worker = record {
  env = server;
  local = node;
  launches = [];
  turns = record { reached = true; incoming = session } ∷ [];
  writes = [];
  finished = [];
}

abbrev no_principals : ℕ → Option (List (List String))
no_principals p = some []

wait_and_process-StaysPublic_example : StaysPublic 9 no_principals (
    wait_and_process 9 no_principals 5
      (none ∷ some (SchedResponse.process_task "t" (some secret_invoke)) ∷ [])
      worker)
wait_and_process-StaysPublic_example =
    wait_and_process-StaysPublic 9 no_principals 5
      (none ∷ some (SchedResponse.process_task "t" (some secret_invoke)) ∷ []) worker
      ((refl, tt), tt)

abbrev new_one : Vm
new_one = record { id = 1; function = thumbnail; label = (0, 0); launched = false }

abbrev job : Job
job = record { function = thumbnail; label = (4, 0); privilege = 0; message = secret_invoke }

abbrev unanswered : TaskReturn
unanswered = record { code = ReturnCode.process_request_failed; payload = none; label = none }

abbrev slow_start : Worker
slow_start = record worker {
  launches = Launch.failed ∷ Launch.failed ∷ Launch.launched ∷ [];
  turns = [];
}

attempts-end_example :
    attempts 9 no_principals 5 0 job unanswered new_one slow_start ≢ out_of_rounds
attempts-end_example =
    attempts-end 9 no_principals 2 [] job unanswered new_one slow_start refl refl (omega arith)

abbrev late_start : Worker
late_start = record worker {
  launches =
      Launch.failed ∷ Launch.failed ∷ Launch.failed ∷ Launch.failed ∷ Launch.failed
      ∷ Launch.launched ∷ [];
  turns = [];
}

attempts-loop_example :
    attempts 9 no_principals 12 0 job unanswered new_one late_start ≡ out_of_rounds
attempts-loop_example =
    attempts-loop 9 no_principals 12 5 [] job 0 [] unanswered new_one late_start (omega arith) refl
      refl refl (omega arith) refl refl refl
