-- ===== src/Sched/Service.antt =====
-- The scheduler's threads: `schedule` of snapfaas/src/sched/mod.rs and `serve` of
-- snapfaas/src/sched/rpc_server.rs.
--
-- A step is what one thread does between two points at which others can run: a lock, the channel,
-- the end of a request. A connection is a number, and its thread serves one request after the other.
-- The scheduling thread may look for a worker at any time, not only when it is woken. The capacity
-- of the queue is at least one.
pub mod Tasks
pub mod Rounds
pub mod Requests
pub mod Fifo
pub mod Answers
use faasten.Base.{
  ℕ, zero, suc, String, Bool, true, false, Option, none, some, List, [], ◌∷◌, ◌++◌, length,
  if◌then◌else◌, ltb, ◌==◌, number_eq,
}
use faasten.Base.Dict
use faasten.Base.Dict.{Dict}
use faasten.Labels.{Labels, public}
use faasten.Fs.Types.{Function}
use faasten.Wire.{Bytes}
use faasten.Syscall.Messages.{TaskReturn, ReturnCode}
use faasten.Sched.Manager.{
  SocketAddr, Worker, Manager, ResourceInfo, new_manager, add_idle, find_idle, update,
}
use faasten.Sched.Leaving.{remove}
use faasten.Sched.Protocol.{InvokeMessage, Request, SchedResponse, Sent, Encodings}

module _ ⦃L : Labels⦄ where
  -- `Task::Invoke`; `Task::Terminate` is never made.
  pub record Task : Type 0 where
    pub uuid : ℕ
    pub invoke : InvokeMessage

  -- The thread of a connection. Between the queue and the list of those that wait it holds the
  -- number of the task that it is about to wait for.
  pub record Thread : Type 0 where
    pub addr : SocketAddr
    pub registering : Option ℕ

  pub record System : Type 0 where
    pub manager : Manager
    pub queue : List Task
    pub capacity : ℕ
    -- The task that the scheduling thread has taken, and whether that thread still runs.
    pub current : Option (Function × Task)
    pub scheduling : Bool
    pub threads : Dict ℕ Thread
    -- The numbers that will be drawn, and whether each write to come succeeds.
    pub draws : List ℕ
    pub writes : List Bool
    -- What was written to which connection, in order.
    pub sent : List (ℕ × Sent)

  abbrev pub new_system : ℕ → List ℕ → List Bool → System
  new_system capacity draws writes = record {
    manager = new_manager;
    queue = [];
    capacity = capacity;
    current = none;
    scheduling = true;
    threads = [];
    draws = draws;
    writes = writes;
    sent = [];
  }

  -- `message::write`: whether it succeeds.
  unfoldable pub send : ℕ → Sent → System → Bool × System
  send conn msg s = elim s.writes [
    | [] ↦ (true, record s { sent = s.sent ++ (conn, msg) ∷ [] })
    | true ∷ later ↦ (true, record s { sent = s.sent ++ (conn, msg) ∷ []; writes = later })
    | false ∷ later ↦ (false, record s { writes = later })
  ]

  -- The thread of a connection ends, and the connection with it.
  abbrev pub end_thread : ℕ → System → System
  end_thread conn s = record s { threads = Dict.remove conn s.threads }

  unfoldable pub answer : Option ℕ → ℕ → TaskReturn → System → System
  unfolding send
  answer none uuid r s = s
  answer (some conn) uuid r s =
      let waiting = Dict.remove uuid s.manager.wait_list in
      (send conn (Sent.result r)
        (record s { manager = record s.manager { wait_list = waiting } })).1

  -- The nil number is 0.
  unfoldable pub finish : Option ℕ → TaskReturn → System → System
  unfolding answer
  finish none r s = s
  finish (some uuid) r s =
      if uuid == 0 then s else answer (Dict.get uuid s.manager.wait_list) uuid r s

  abbrev pub queue_full : TaskReturn
  queue_full = record { code = ReturnCode.queue_full; payload = none; label = some public }

  abbrev pub has_room : System → Bool
  has_room s = ltb (length s.queue) s.capacity

  -- The task enters the queue, and the thread is about to wait for it; or there is no room.
  unfoldable pub enqueue : ℕ → Thread → ℕ → InvokeMessage → System → System
  unfolding send
  enqueue conn t uuid r s =
      if has_room s
      then record s {
        queue = s.queue ++ (record { uuid = uuid; invoke = r }) ∷ [];
        threads =
            if r.sync
            then Dict.insert conn (record t { registering = some uuid }) s.threads
            else s.threads;
      }
      else (send conn (Sent.result queue_full) s).1

  -- `try_send`, and what its outcome leads to.
  unfoldable pub submit : ℕ → Thread → ℕ → InvokeMessage → System → System
  unfolding enqueue
  submit conn t uuid r s = if s.scheduling then enqueue conn t uuid r s else end_thread conn s

  unfoldable pub invoke : ℕ → Thread → InvokeMessage → List ℕ → System → System
  unfolding submit
  invoke conn t r [] s = s
  invoke conn t r (uuid ∷ later) s = submit conn t uuid r (record s { draws = later })

  -- The workers of a node that leaves are told to end.
  unfoldable pub terminate_each : List Worker → System → System
  unfolding send
  terminate_each [] s = s
  terminate_each (w ∷ ws) s =
      terminate_each ws (send w.conn (Sent.response SchedResponse.terminate) s).1

  unfoldable pub drop_node : ℕ → Thread → System → System
  unfolding terminate_each remove
  drop_node conn t s =
      let (workers, m) = remove t.addr.ip s.manager in
      end_thread conn (terminate_each workers (record s { manager = m }))

  abbrev pub report : Option ResourceInfo → Thread → System → System
  report none t s = s
  report (some info) t s = record s { manager = update t.addr.ip info s.manager }

  module _ ⦃E : Encodings⦄ where
    -- One request of `serve`'s loop.
    unfoldable pub serve_request : ℕ → Thread → Request → System → System
    unfolding send finish invoke drop_node
    serve_request conn t Request.ping s = (send conn (Sent.response SchedResponse.pong) s).1
    serve_request conn t (Request.get_task thread_id) s = record s {
      manager = add_idle t.addr conn s.manager;
    }
    serve_request conn t (Request.finish_task task_id none) s = end_thread conn s
    serve_request conn t (Request.finish_task task_id (some r)) s =
        finish (E.parse_uuid task_id) r s
    serve_request conn t (Request.labeled_invoke r) s = invoke conn t r s.draws s
    serve_request conn t (Request.update_resource info) s = report (E.parse_info info) t s
    serve_request conn t Request.drop_resource s = drop_node conn t s
    serve_request conn t Request.terminate_all s = s
    serve_request conn t Request.no_kind s = s

    -- A thread that is about to wait for a task does not read.
    unfoldable pub receive : ℕ → Option Thread → Request → System → System
    unfolding serve_request
    receive conn none req s = s
    receive conn (some t) req s = elim t.registering [
      | none ↦ serve_request conn t req s
      | some uuid ↦ s
    ]

    unfoldable pub deliver : Task → Option (Option Worker × Manager) → System → System
    unfolding send
    deliver task none s = record s { scheduling = false; current = none; queue = [] }
    deliver task (some (none, m)) s = record s { manager = m }
    deliver task (some (some w, m)) s =
        let (sent, s') =
          send w.conn
            (Sent.response (SchedResponse.process_task (E.show_uuid task.uuid) (some task.invoke)))
            (record s { manager = m }) in
        if sent then record s' { current = none } else s'

  -- The scheduling thread takes a task. One that names no function ends the thread, and the queue
  -- with it.
  abbrev pub take_task : List Task → System → System
  take_task [] s = s
  take_task (task ∷ later) s = elim task.invoke.function [
    | none ↦ record s { scheduling = false; queue = [] }
    | some f ↦ record s { current = some (f, task); queue = later }
  ]

  -- `wait_list.insert`, after the task is in the queue.
  abbrev pub start_waiting : ℕ → Option Thread → System → System
  start_waiting conn none s = s
  start_waiting conn (some t) s = elim t.registering [
    | none ↦ s
    | some uuid ↦ record s {
      manager = record s.manager { wait_list = Dict.insert uuid conn s.manager.wait_list };
      threads = Dict.insert conn (record t { registering = none }) s.threads;
    }
  ]

  pub data Event : Type 0 where
    -- A connection is made, is lost, or brings a request; its thread enters the list of those that
    -- wait; the scheduling thread goes on.
    connected : ℕ → SocketAddr → Event
    disconnected : ℕ → Event
    received : ℕ → Request → Event
    registered : ℕ → Event
    scheduled : Event

  module _ ⦃E : Encodings⦄ where
    abbrev pub proceed : Option (Function × Task) → System → System
    proceed none s = take_task s.queue s
    proceed (some (f, task)) s = deliver task (find_idle f s.manager) s

    -- A round of `schedule`.
    unfoldable pub schedule : System → System
    unfolding deliver
    schedule s = if s.scheduling then proceed s.current s else s

    unfoldable pub step : Event → System → System
    unfolding receive schedule
    step (Event.connected conn addr) s = if Dict.contains_key conn s.threads then s else record s {
      threads = Dict.insert conn (record { addr = addr; registering = none }) s.threads;
    }
    step (Event.disconnected conn) s = end_thread conn s
    step (Event.received conn req) s = receive conn (Dict.get conn s.threads) req s
    step (Event.registered conn) s = start_waiting conn (Dict.get conn s.threads) s
    step Event.scheduled s = schedule s

    unfoldable pub go : List Event → System → System
    unfolding step
    go [] s = s
    go (e ∷ es) s = go es (step e s)
