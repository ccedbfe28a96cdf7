-- ===== src/Sched/Protocol.antt =====
-- The messages of the scheduler: snapfaas/src/sched/messages.proto. A field that holds a message may
-- be missing. Labels stand in them as labels.
use faasten.Base.{ℕ, String, Bool, Option, some, ◌≡◌}
use faasten.Base.Dict.{Dict}
use faasten.Labels.{Labels, Component, Buckle}
use faasten.Fs.Types.{Function, File}
use faasten.Wire.{Bytes}
use faasten.Sched.Manager.{ResourceInfo}
use faasten.Syscall.Messages.{TaskReturn}

module _ ⦃L : Labels⦄ where
  pub record InvokeMessage : Type 0 where
    pub function : Option Function
    pub label : Option Buckle
    pub gate_privilege : Option Component
    pub payload : File
    pub blobs : Dict String String
    pub headers : Dict String String
    pub sync : Bool
    pub invoker : Option Component

  pub data Request : Type 0 where
    get_task : ℕ → Request
    finish_task : String → Option TaskReturn → Request
    labeled_invoke : InvokeMessage → Request
    update_resource : Bytes → Request
    drop_resource terminate_all ping no_kind : Request

  pub data SchedResponse : Type 0 where
    process_task : String → Option InvokeMessage → SchedResponse
    terminate fail : SchedResponse
    success : TaskReturn → SchedResponse
    pong no_kind : SchedResponse

  -- What is written to a connection: a response, or the bare result of a task.
  pub data Sent : Type 0 where
    response : SchedResponse → Sent
    result : TaskReturn → Sent

-- The numbers of tasks as texts (the crate `uuid`), and the reports of nodes (serde_json).
pub record Encodings : Type 0 where
  pub show_uuid : ℕ → String
  pub parse_uuid : String → Option ℕ
  pub parse-show : (u : ℕ) → parse_uuid (show_uuid u) ≡ some u
  pub parse_info : Bytes → Option ResourceInfo
