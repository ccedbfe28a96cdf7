-- ===== src/Sched/Service/Fifo.antt =====
-- The order of tasks over any run of the scheduler: snapfaas/src/sched/mod.rs,
-- snapfaas/src/sched/rpc_server.rs.
use faasten.Base.{some, List, number_eq}
use faasten.Base.Dict
use faasten.Base.Dict.{Dict}
use faasten.Labels.{Labels}
use faasten.Sched.Manager.{Manager}
use faasten.Sched.Consistent.{Consistent}
use faasten.Sched.Once.{Once}
use faasten.Sched.Protocol.{SchedResponse, Sent, Encodings}
use faasten.Sched.Service.{Task}

module _ ⦃L : Labels⦄ ⦃E : Encodings⦄ where
  abbrev handing : Task → Sent
  handing task =
      Sent.response (SchedResponse.process_task (E.show_uuid task.uuid) (some task.invoke))
