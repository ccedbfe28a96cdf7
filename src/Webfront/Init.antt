-- ===== src/Webfront/Init.antt =====
-- The invocation of a gate for a user: frontends/webfront/src/init.rs.
use faasten.Base.{
  ℕ, suc, String, Bool, true, Option, none, some, List, [], ◌∷◌, if◌then◌else◌, ◌==◌, name_eq,
}
use faasten.Base.Dict
use faasten.Base.Dict.{Dict}
use faasten.Labels.{Labels, Buckle, Component, dc_true, parse_buckle, can_flow_to_with_privilege}
use faasten.Fs.Errors.{FsError}
use faasten.Fs.Types.{File}
use faasten.Fs.World.{Serde}
use faasten.Fs.Path.{FilePath}
use faasten.Fs.Parser
use faasten.Fs.Parser.{Parsed, PathError}
use faasten.Fs.Parser.Texts.{append}
use faasten.Fs.Utils.{
  clear_label, set_my_privilege, taint_with_label, get_current_label, get_privilege,
  resolve_gate_with_clearance_check,
}
use faasten.Syscall.Server.{Digest, on_fs, store_create, store_save, write_all}
use faasten.Sched.Protocol.{InvokeMessage}
use faasten.Sched.HttpReply.{HttpReply, http_reply}
use faasten.Webfront.{
  UploadedFile, Media, WebRequest, WebContent, WebReply, Libraries, Received, Answer, Web, ◌>>=◌,
  ◌>>◌, pure, refuse, panics, ok_or, unwrap, calls,
}

-- What a request comes to: its files, its payload, its label and its headers.
pub record Parts ⦃L : Labels⦄ : Type 0 where
  pub files : List UploadedFile
  pub text : String
  pub label : Option Buckle
  pub headers : Dict String String

pub record Payload ⦃L : Labels⦄ : Type 0 where
  pub payload : File
  pub blobs : Dict String String
  pub label : Option Buckle
  pub headers : Dict String String

module _ ⦃L : Labels⦄ ⦃S : Serde⦄ ⦃D : Digest⦄ ⦃W : Libraries⦄ where
  -- The headers but `authorization`, in lower case. A header that comes twice has its last value.
  unfoldable pub collect_headers : Dict String String → Dict String String → Dict String String
  collect_headers [] found = found
  collect_headers ((k, v) ∷ rest) found = collect_headers rest (
      if W.to_ascii_lowercase k == "authorization"
      then found
      else Dict.insert (W.to_ascii_lowercase k) v found)

  -- The label of a form must be one.
  abbrev pub form_label : Option String → Web (Option Buckle)
  form_label none = pure none
  form_label (some t) = do l ← ok_or 400 WebContent.described (parse_buckle t); pure (some l)

  -- That of a header is left aside where it is none.
  abbrev pub header_label : Option String → Option Buckle
  header_label none = none
  header_label (some t) = parse_buckle t

  abbrev pub read_body : Option (Option String) → Web String
  read_body none = panics
  read_body (some none) = refuse 400 WebContent.described
  read_body (some (some t)) = pure t

  unfoldable pub parts_of : WebRequest → Media → Web Parts
  unfolding collect_headers
  parts_of request Media.unknown = refuse 415 (WebContent.error "Unknown MIME")
  parts_of request Media.other = refuse 415 WebContent.described
  parts_of request Media.multipart = do
    form ← ok_or 400 WebContent.described request.form
    label ← form_label form.label
    pure (record {
      files = form.blob;
      text = form.payload;
      label = label;
      headers = collect_headers request.headers [];
    })
  parts_of request Media.json = do
    text ← read_body request.body
    pure (record {
      files = [];
      text = text;
      label = header_label request.faasten_label;
      headers = collect_headers request.headers [];
    })

  abbrev pub blob_name : Option String → ℕ → String
  blob_name none i = append "blob" (W.show_number i)
  blob_name (some n) i = n

  abbrev pub failed : FsError → WebReply
  failed e = record { status_code = 500; content = WebContent.described }

  -- A new blob for each file, with its name; two files of one name leave one of them.
  unfoldable pub save_files : List UploadedFile → ℕ → Dict String String → Web (Dict String String)
  unfolding calls
  save_files [] i blobs = pure blobs
  save_files (f ∷ rest) i blobs = do
    created ← calls failed store_create
    newblob ← ok_or 500 WebContent.described created
    written ← calls failed (write_all newblob f.bytes)
    newblob' ← ok_or 500 WebContent.described written
    saved ← calls failed (store_save newblob')
    blob ← ok_or 500 WebContent.described saved
    save_files rest (suc i) (Dict.insert (blob_name f.filename i) blob.name blobs)

  unfoldable pub prepare_payload : WebRequest → Web Payload
  unfolding parts_of save_files
  prepare_payload request = do
    media ← ok_or 400 (WebContent.error "Missing header content-type") request.content_type
    parts ← parts_of request media
    payload ← ok_or 400 WebContent.described (W.normalise_json parts.text)
    blobs ← save_files parts.files 0 []
    pure (record { payload = payload; blobs = blobs; label = parts.label; headers = parts.headers })

  -- Which label and privilege the thread reads the gate with.
  abbrev pub or_public : Option Component → Component
  or_public none = dc_true
  or_public (some p) = p

  abbrev pub start_label : Option Buckle → Web (Unit {0})
  start_label none = pure tt
  start_label (some l) = do calls failed (on_fs (taint_with_label l)); pure tt

  unfoldable pub set_labels : Option Component → Option Buckle → Web (Unit {0})
  unfolding calls
  set_labels login label = do
    calls failed (on_fs clear_label)
    calls failed (on_fs (set_my_privilege (or_public login)))
    start_label label

  abbrev pub path_or_refuse : Parsed FilePath → Web FilePath
  path_or_refuse (Parsed.err e) = refuse 400 (WebContent.error "Invalid path.")
  path_or_refuse (Parsed.ok p) = pure p

  unfoldable pub parse_path : String → Web FilePath
  parse_path t s = path_or_refuse (Parser.parse t s.server.world) s

  abbrev pub cannot_resolve : FsError → WebReply
  cannot_resolve e = record { status_code = 400; content = WebContent.fs_error e }

  -- `rounds` bounds the redirect gates that are followed.
  unfoldable pub prepare_labeled_invoke : ℕ → String → Payload → Web InvokeMessage
  unfolding calls parse_path
  prepare_labeled_invoke rounds gate_path p = do
    path ← parse_path gate_path
    gate ← calls cannot_resolve (on_fs (resolve_gate_with_clearance_check rounds path))
    label ← calls failed (on_fs get_current_label)
    invoker ← calls failed (on_fs get_privilege)
    pure (record {
      function = some gate.0;
      label = some label;
      gate_privilege = some gate.1;
      payload = p.payload;
      blobs = p.blobs;
      headers = p.headers;
      sync = true;
      invoker = some invoker;
    })

  -- `sched::rpc::labeled_invoke`.
  unfoldable pub submit : InvokeMessage → Web (Unit {0})
  submit m s = if s.accepts then (Answer.ok tt, record s { sent = m ∷ s.sent }) else (
    Answer.refused (record {
      status_code = 500;
      content = WebContent.error "failed to submit invocation to the scheduler";
    }),
    s,
  )

  -- The response of a result that may be read.
  abbrev pub reply_of : Option HttpReply → Web WebReply
  reply_of none = panics
  reply_of (some r) =
      if W.is_success r.status_code
      then pure (record { status_code = r.status_code; content = WebContent.from_task r.content })
      else refuse r.status_code (WebContent.from_task r.content)

  unfoldable pub may_read : Buckle → Web Bool
  may_read l s =
      let w = s.server.world in (Answer.ok (can_flow_to_with_privilege l w.label w.privilege), s)

  unfoldable pub unreadable : Buckle → Web WebReply
  unreadable l s =
      let w = s.server.world in refuse 401 (WebContent.unauthorized l w.label w.privilege) s

  unfoldable pub take_result : Received → Web WebReply
  unfolding may_read unreadable http_reply
  take_result Received.unreadable = refuse 500 (WebContent.error "failed to read the task return")
  take_result Received.undecodable =
      refuse 500 (WebContent.error "failed to decode return from Faasten core")
  take_result (Received.received tr) = do
    l ← unwrap tr.label
    readable ← may_read l
    if readable then reply_of (http_reply tr) else unreadable l

  unfoldable pub wait_for_completion : InvokeMessage → Web WebReply
  unfolding submit take_result
  wait_for_completion m = do submit m; λ s. take_result s.returns s

  unfoldable pub init : ℕ → Option Component → String → WebRequest → Web WebReply
  unfolding prepare_payload set_labels prepare_labeled_invoke wait_for_completion
  init rounds login gate_path request = do
    p ← prepare_payload request
    set_labels login p.label
    req ← prepare_labeled_invoke rounds gate_path p
    wait_for_completion req
