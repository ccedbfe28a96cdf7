-- ===== src/Syscall/Invoke.antt =====
-- The invocation of gates and services: `dent_invoke` of snapfaas/src/syscall_server.rs.
use faasten.Base.{
  ℕ, String, Bool, true, false, ◌||◌, Option, none, some, List, [], ◌∷◌, if◌then◌else◌, is_some,
}
use faasten.Base.Dict.{Dict}
use faasten.Labels.{Labels, Component, public, implies}
use faasten.Fs.Types.{DirEntry, File, GateRef, ServiceRef, DirectGate, Service}
use faasten.Fs.World.{Serde, ok}
use faasten.Fs.Object.{gate_to_invokable, service_to_invokable}
use faasten.Fs.Utils.{get_privilege, get_current_label, taint_with_label, declassify_with}
use faasten.Syscall.Messages.{DentInvokeResult, LabeledInvoke, TaskReturn}
use faasten.Syscall.Server.{
  HttpAnswer, Digest, Conn, Call, ◌>>=◌, ◌>>◌, pure, unwrap, panics, on_fs, dent, new_blob,
  store_create, store_save, write_all,
}
use faasten.Syscall.Edit.{or_else}

-- The three parts of the result: the descriptor of a blob, the data, the headers.
pub record Invoked : Type 0 where
  pub blobfd : Option ℕ
  pub contents : Option File
  pub headers : Option (Dict String File)

abbrev pub not_invoked : Invoked
not_invoked = record { blobfd = none; contents = none; headers = none }

module _ ⦃L : Labels⦄ ⦃S : Serde⦄ where
  unfoldable pub send_on : Conn → LabeledInvoke → List Bool → Call Bool
  send_on c m [] s = (ok true, record s { sched_conn = some (record c { sent = m ∷ c.sent }) })
  send_on c m (true ∷ rest) s =
      (ok true, record s { sched_conn = some (record c { sent = m ∷ c.sent; accepts = rest }) })
  send_on c m (false ∷ rest) s =
      (ok false, record s { sched_conn = some (record c { accepts = rest }) })

  -- `sched::rpc::labeled_invoke`: whether the message could be sent.
  unfoldable pub send_invoke : Conn → LabeledInvoke → Call Bool
  send_invoke c m = send_on c m c.accepts

  unfoldable pub connection : Call (Option Conn)
  connection s = (ok s.sched_conn, s)

  unfoldable pub read_on : Conn → List (Option TaskReturn) → Call (Option TaskReturn)
  read_on c [] s = (ok none, s)
  read_on c (r ∷ rest) s = (ok r, record s { sched_conn = some (record c { returns = rest }) })

  -- `message::read::<TaskReturn>`: none where it fails.
  unfoldable pub read_return : Conn → Call (Option TaskReturn)
  read_return c = read_on c c.returns

  unfoldable pub take_http : List HttpAnswer → Call HttpAnswer
  take_http [] s = (ok HttpAnswer.send_failed, s)
  take_http (a ∷ rest) s = (ok a, record s { http = rest })

  unfoldable pub next_answer : Call HttpAnswer
  unfolding take_http
  next_answer s = take_http s.http s

  -- A blob with the bytes, as both branches make it; each step is expected to succeed.
  unfoldable pub save_bytes : ⦃D : Digest⦄ → File → Call ℕ
  save_bytes bytes = do
    created ← store_create
    b ← unwrap created
    filled ← write_all b bytes
    b' ← unwrap filled
    saved ← store_save b'
    blob ← unwrap saved
    new_blob blob

  unfoldable pub take_return : ⦃D : Digest⦄ → Bool → TaskReturn → Call Invoked
  take_return toblob res = do
    on_fs (taint_with_label (or_else public res.label))
    payload ← unwrap res.payload
    elim toblob [
      | true ↦ do
        fd ← save_bytes (or_else [] payload.body)
        pure (record { blobfd = some fd; contents = none; headers = none })
      | false ↦ pure (record { blobfd = none; contents = payload.body; headers = none })
    ]

  -- What follows a message that was sent.
  unfoldable pub after_send : ⦃D : Digest⦄ → Bool → Bool → Call Invoked
  after_send sync toblob = elim sync [
    | true ↦ do
      found ← connection
      c ← unwrap found
      res ← read_return c
      elim res [ none ↦ pure not_invoked | some r ↦ take_return toblob r ]
    | false ↦ pure (record { blobfd = none; contents = some []; headers = none })
  ]

  -- The message that is sent for a gate, after the check of its clearance.
  unfoldable pub send_to_gate :
      ⦃D : Digest⦄ → DirectGate → Component → File → Bool → Bool → Dict String String → Call Invoked
  send_to_gate g privilege payload sync toblob parameters = do
    found ← connection
    c ← unwrap found
    label ← on_fs get_current_label
    sent ← send_invoke c (record {
      function = g.function;
      label = label;
      gate_privilege = g.privilege;
      payload = payload;
      headers = parameters;
      sync = sync;
      invoker = privilege;
    })
    if sent then after_send sync toblob else pure not_invoked

  unfoldable pub invoke_gate :
      ⦃D : Digest⦄ → ℕ → GateRef → File → Bool → Bool → Dict String String → Call Invoked
  invoke_gate rounds r payload sync toblob parameters = do
    g ← on_fs (gate_to_invokable rounds r)
    privilege ← on_fs get_privilege
    if implies privilege g.invoker_integrity_clearance
        then send_to_gate g privilege payload sync toblob parameters
        else pure not_invoked

  unfoldable pub take_answer : ⦃D : Digest⦄ → Bool → HttpAnswer → Call Invoked
  take_answer toblob HttpAnswer.send_failed = pure not_invoked
  take_answer toblob HttpAnswer.bad_header = panics
  take_answer toblob (HttpAnswer.answered headers body) = elim toblob [
    | true ↦ do
      bytes ← unwrap body
      fd ← save_bytes bytes
      pure (record { blobfd = some fd; contents = none; headers = some headers })
    | false ↦ pure (record { blobfd = none; contents = body; headers = some headers })
  ]

  -- The label of a service taints the thread whether or not it could be reached.
  unfoldable pub send_to_service : ⦃D : Digest⦄ → Service → Bool → Call Invoked
  send_to_service service toblob = do
    on_fs (declassify_with service.privilege)
    answer ← next_answer
    on_fs (taint_with_label service.taint)
    take_answer toblob answer

  unfoldable pub invoke_service : ⦃D : Digest⦄ → ServiceRef → Bool → Call Invoked
  invoke_service r toblob = do
    service ← on_fs (service_to_invokable r)
    privilege ← on_fs get_privilege
    if implies privilege service.invoker_integrity_clearance
        then send_to_service service toblob
        else pure not_invoked

  unfoldable pub invoke_entry :
      ⦃D : Digest⦄ → ℕ → Option DirEntry → File → Bool → Bool → Dict String String → Call Invoked
  invoke_entry rounds (some (DirEntry.gate r)) payload sync toblob parameters =
      invoke_gate rounds r payload sync toblob parameters
  invoke_entry rounds (some (DirEntry.service r)) payload sync toblob parameters =
      invoke_service r toblob
  invoke_entry rounds _ payload sync toblob parameters = pure not_invoked

  abbrev pub invoke_result : Invoked → DentInvokeResult
  invoke_result i = record {
    success = is_some i.blobfd || is_some i.contents;
    fd = i.blobfd;
    contents = i.contents;
    headers = or_else [] i.headers;
  }

  unfoldable pub dent_invoke :
      ⦃D : Digest⦄ → ℕ → ℕ → File → Bool → Bool → Dict String String → Call DentInvokeResult
  unfolding invoke_entry
  dent_invoke rounds fd payload sync toblob parameters = do
    d ← dent fd
    i ← invoke_entry rounds d payload sync toblob parameters
    pure (invoke_result i)
