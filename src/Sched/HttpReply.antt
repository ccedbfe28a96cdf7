-- ===== src/Sched/HttpReply.antt =====
-- The response of a gateway to the result of a task: `From<TaskReturn>` of
-- snapfaas/src/sched/message.rs.
use faasten.Base.{ℕ, String, ◌%◌, ◌^◌, Option, none, some, []}
use faasten.Labels.{Labels}
use faasten.Fs.Types.{File}
use faasten.Syscall.Messages.{TaskReturn, ReturnCode, Response}

pub data Content : Type 0 where
  -- A JSON object with the field `error`.
  error : String → Content
  octets : File → Content

pub record HttpReply : Type 0 where
  pub status_code : ℕ
  pub content : Content

-- `body()`: an absent body is empty.
abbrev pub body_of : Option File → File
body_of none = []
body_of (some bytes) = bytes

abbrev pub refusal : String → Option HttpReply
refusal message = some (record { status_code = 500; content = Content.error message })

-- The status is cut to 16 bits. Without a payload the code panics.
abbrev pub passed_through : Option Response → Option HttpReply
passed_through none = none
passed_through (some r) =
    some
      (record { status_code = r.status_code % 2 ^ 16; content = Content.octets (body_of r.body) })

module _ ⦃L : Labels⦄ where
  abbrev pub reply_for : ReturnCode → Option Response → Option HttpReply
  reply_for ReturnCode.queue_full payload = refusal "queue full"
  reply_for ReturnCode.launch_failed payload = refusal "failed to launch the VM"
  reply_for ReturnCode.gate_not_exist payload = refusal "gate does not exist"
  reply_for ReturnCode.resource_exhausted payload = refusal "resource exhausted"
  reply_for ReturnCode.process_request_failed payload = refusal "failed to process request"
  reply_for ReturnCode.success payload = passed_through payload
  reply_for (ReturnCode.unknown_code n) payload = refusal "unknown return code"

  unfoldable pub http_reply : TaskReturn → Option HttpReply
  http_reply r = reply_for r.code r.payload
