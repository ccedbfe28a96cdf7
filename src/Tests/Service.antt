-- ===== src/Tests/Service.antt =====
-- The theorems about messages and the scheduler's threads, at concrete inputs.
use faasten.Base.{
  ℕ, zero, suc, String, ◌≡◌, refl, true, false, Bool, none, some, List, [], ◌∷◌, ◌++◌, arith, ap,
  number_eq,
}
use faasten.Base.Dict
use faasten.Wire.{Bytes, Stream, be_bytes}
use faasten.Syscall.Messages.{TaskReturn, ReturnCode}
use faasten.Sched.Manager.{SocketAddr, Manager, new_manager}
use faasten.Sched.Consistent.{Consistent}
use faasten.Sched.Framing.{Codec, ok, err, stream_read, read_frame}
use faasten.Sched.Framed.{write_each, read_each, read_each-write_each}
use faasten.Sched.Protocol.{InvokeMessage, Request, Sent, Encodings}
use faasten.Sched.Service.{System, new_system, queue_full, Event, step, go}
use faasten.Sched.Service.Requests.{accepted}
use faasten.Sched.Service.Answers.{reports, report-report, registered-report, received-full}
use faasten.Tests.Setup.{number_labels}
use faasten.Tests.Sched.{thumbnail}

instance abbrev pub byte_codec : Codec Bytes
byte_codec = record { encode = λ bs. bs; decode = λ bs. some bs; decode-encode = λ bs. refl }

abbrev pub fresh_stream : Stream
fresh_stream = record { incoming = []; outgoing = []; writes = [] }

abbrev messages : List Bytes
messages = (1 ∷ 2 ∷ 3 ∷ []) ∷ [] ∷ (255 ∷ []) ∷ []

read_each-write_each_example :
    ((write_each messages fresh_stream).0 ≡ ok tt)
    × (read_each 3
          (record fresh_stream { incoming = (write_each messages fresh_stream).1.outgoing })
        ≡ (ok messages, record fresh_stream { incoming = [] }))
read_each-write_each_example =
    read_each-write_each messages fresh_stream fresh_stream (omega arith) refl refl

-- The three messages on the wire.
sent_messages :
    (write_each messages fresh_stream).1.outgoing
    ≡ 0 ∷ 0 ∷ 0 ∷ 0 ∷ 0 ∷ 0 ∷ 0 ∷ 3 ∷ 1 ∷ 2 ∷ 3 ∷ 0 ∷ 0 ∷ 0 ∷ 0 ∷ 0 ∷ 0 ∷ 0 ∷ 0 ∷ 0 ∷ 0 ∷ 0 ∷ 0 ∷ 0
      ∷ 0 ∷ 0 ∷ 1 ∷ 255 ∷ []
unfolding write_each faasten.Sched.Framing.write faasten.Wire.write_all faasten.Wire.be_bytes
sent_messages = refl

abbrev cut_stream : Stream
cut_stream = record fresh_stream { incoming = be_bytes 8 5 ++ 1 ∷ 2 ∷ [] }

abbrev unary : ℕ → String
unary zero = String.[]
unary (suc n) = String.◌∷◌ "1" (unary n)

abbrev size : String → ℕ
size String.[] = 0
size (String.◌∷◌ c s) = suc (size s)

size-unary : (n : ℕ) → size (unary n) ≡ n
size-unary zero = refl
size-unary (suc n) = ap suc (size-unary n)

instance abbrev unary_encodings : Encodings
unary_encodings = record {
  show_uuid = unary;
  parse_uuid = λ s. some (size s);
  parse-show = λ u. ap some (size-unary u);
  parse_info = λ bs. none;
}

abbrev worker_addr : SocketAddr
worker_addr = record { ip = 7; port = 80 }

abbrev gateway_addr : SocketAddr
gateway_addr = record { ip = 1; port = 81 }

abbrev call_thumbnail : Bool → InvokeMessage
call_thumbnail sync = record {
  function = some thumbnail;
  label = some (0, 0);
  gate_privilege = some 0;
  payload = [];
  blobs = [];
  headers = [];
  sync = sync;
  invoker = some 0;
}

-- A worker (connection 2) asks for a task, a gateway (connection 1) invokes a function and waits.
abbrev conversation : List Event
conversation =
    Event.connected 1 gateway_addr
    ∷ Event.connected 2 worker_addr
    ∷ Event.received 2 (Request.get_task 0)
    ∷ Event.received 1 (Request.labeled_invoke (call_thumbnail true))
    ∷ Event.scheduled
    ∷ Event.scheduled
    ∷ []

abbrev begun : System
begun = new_system 2 (5 ∷ 6 ∷ []) []

-- One task was accepted.
conversation-accepted : accepted conversation begun ≡ (unary 5, call_thumbnail true) ∷ []
unfolding accepted go Dict.get Dict.contains_key Dict.insert
conversation-accepted = refl

abbrev success : TaskReturn
success = record { code = ReturnCode.success; payload = none; label = none }

abbrev waiting_system : System
waiting_system = record begun {
  manager = record new_manager { wait_list = (5, 1) ∷ [] };
  threads =
      (1, record { addr = gateway_addr; registering = none })
      ∷ (2, record { addr = worker_addr; registering = none })
      ∷ [];
}

report-report_example :
    ((step (reports 2 5 success) waiting_system).sent ≡ (1, Sent.result success) ∷ [])
    × ((step (reports 2 5 queue_full) (step (reports 2 5 success) waiting_system)).sent
        ≡ (1, Sent.result success) ∷ [])
unfolding Dict.get
report-report_example =
    report-report 2 2 5 1 success queue_full waiting_system
      (record { addr = worker_addr; registering = none }, refl, refl)
      (record { addr = worker_addr; registering = none }, refl, refl) (omega arith) refl refl

-- The worker reports before the gateway's thread has entered it among those that wait.
abbrev hasty_system : System
hasty_system = go conversation begun

registered-report_example :
    ((step (Event.registered 1) (step (reports 2 5 success) hasty_system)).sent ≡ hasty_system.sent)
    × (Dict.get 5
          (step (Event.registered 1) (step (reports 2 5 success) hasty_system)).manager.wait_list
        ≡ some 1)
unfolding go Dict.get Dict.contains_key Dict.insert faasten.Sched.Manager.add_idle
    faasten.Sched.Manager.find_idle faasten.Sched.Manager.take_any faasten.Sched.Manager.take_first
registered-report_example =
    registered-report 2 1 5 (record { addr = gateway_addr; registering = some 5 }) success
      hasty_system (record { addr = worker_addr; registering = none }, refl, refl) refl refl refl

abbrev crowded : System
crowded = record waiting_system {
  capacity = 1;
  queue = (record { uuid = 4; invoke = call_thumbnail true }) ∷ [];
}

received-full_example :
    ((step (Event.received 2 (Request.labeled_invoke (call_thumbnail false))) crowded).sent
      ≡ (2, Sent.result queue_full) ∷ [])
    × ((step (Event.received 2 (Request.labeled_invoke (call_thumbnail false))) crowded).queue
        ≡ crowded.queue)
unfolding Dict.get
received-full_example =
    received-full 2 5 (6 ∷ []) (call_thumbnail false) crowded
      (record { addr = worker_addr; registering = none }, refl, refl) refl refl refl refl
