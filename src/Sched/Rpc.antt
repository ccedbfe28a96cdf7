-- ===== src/Sched/Rpc.antt =====
-- The calls of a client of the scheduler: snapfaas/src/sched/rpc.rs. The number of the thread is an
-- argument of `get_task`.
use faasten.Base.{ℕ, String, some}
use faasten.Labels.{Labels}
use faasten.Wire.{Bytes}
use faasten.Syscall.Messages.{TaskReturn}
use faasten.Sched.Protocol.{InvokeMessage, Request, SchedResponse}
use faasten.Sched.Framing.{Io, Codec, ◌>>◌, write, read}

module _ ⦃L : Labels⦄ ⦃Q : Codec Request⦄ where
  unfoldable pub report_result : String → TaskReturn → Io (Unit {0})
  unfolding write
  report_result task_id r = write {T = Request} (Request.finish_task task_id (some r))

  unfoldable pub invoke : InvokeMessage → Io (Unit {0})
  unfolding write
  invoke labeled_invoke = write {T = Request} (Request.labeled_invoke labeled_invoke)

  -- The report is given as its encoding.
  unfoldable pub update_resource : Bytes → Io (Unit {0})
  unfolding write
  update_resource info = write {T = Request} (Request.update_resource info)

  unfoldable pub drop_resource : Io (Unit {0})
  unfolding write
  drop_resource = write {T = Request} Request.drop_resource

  module _ ⦃R : Codec SchedResponse⦄ where
    unfoldable pub ping : Io SchedResponse
    unfolding write read
    ping = do write {T = Request} Request.ping; read

    unfoldable pub get_task : ℕ → Io SchedResponse
    unfolding write read
    get_task thread_id = do write {T = Request} (Request.get_task thread_id); read
