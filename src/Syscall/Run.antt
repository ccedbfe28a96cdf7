-- ===== src/Syscall/Run.antt =====
-- The server's loop: `do_syscall`, `new` and `run` of snapfaas/src/syscall_server.rs.
use faasten.Base.{
  ℕ, String, ◌⊎◌, inl, inr, Bool, true, false, Option, none, some, List, [], ◌∷◌, number_eq,
}
use faasten.Base.Dict.{Dict}
use faasten.Labels.{Labels, Buckle, Component, public, lub, parse_buckle}
use faasten.Fs.Errors.{FsError}
use faasten.Fs.Types.{DirEntry, File, root_ref}
use faasten.Fs.World.{Serde, Outcome, ok, err, panic, diverges}
use faasten.Fs.Utils.{
  get_privilege, get_current_label, taint_with_label, declassify_with, clear_label,
  set_my_privilege,
}
use faasten.Fs.Utils
use faasten.Syscall.Messages.{Syscall, Reply, TaskReturn, ReturnCode, DentResult}
use faasten.Syscall.Server.{
  Digest, OpenBlob, Server, Call, ◌>>=◌, ◌>>◌, pure, panics, unwrap, on_fs, new_blob,
}
use faasten.Syscall.Blobs
use faasten.Syscall.Dents
use faasten.Syscall.Edit
use faasten.Syscall.Invoke
use faasten.Syscall.Edit.{or_else}
use faasten.Syscall.Dents.{plain_result}

-- What the channel's next `wait` gives: a system call, nothing, or an error; and whether the reply
-- to it can be sent.
module _ ⦃L : Labels⦄ where
  pub data Incoming : Type 0 where
    call : Syscall → Bool → Incoming
    nothing : Incoming
    broken : Incoming

-- The error of the server: that of the channel.
pub data ProcessorError : Type 0 where
  read_failed write_failed : ProcessorError

module _ ⦃L : Labels⦄ where
  -- A system call is answered by a reply, or it ends the task.
  pub data Handled : Type 0 where
    reply : Reply → Handled
    finished : TaskReturn → Handled

module _ ⦃L : Labels⦄ ⦃S : Serde⦄ where
  -- An error of `dent_create` and `dent_update` becomes a result without success.
  unfoldable pub or_failed : Call DentResult → Call DentResult
  or_failed m s =
      let (r, s') = m s in
      (
        elim r [
          | ok a ↦ ok a
          | err e ↦ ok (plain_result false none none)
          | panic ↦ panic
          | diverges ↦ diverges
        ],
        s',
      )

  abbrev pub maybe_buckle : (Buckle ⊎ Buckle) → Option Buckle
  maybe_buckle (inl l) = some l
  maybe_buckle (inr l) = none

  -- The match of `do_syscall`; `rounds` bounds the loop that resolves redirect gates.
  unfoldable pub handle : ⦃D : Digest⦄ → ℕ → Syscall → Call Handled
  handle rounds (Syscall.response r) = do
    privilege ← on_fs get_privilege
    result_label ← on_fs (declassify_with privilege)
    pure (
        Handled.finished
          (record { code = ReturnCode.success; payload = some r; label = some result_label }))
  handle rounds (Syscall.buckle_parse label) =
      pure (Handled.reply (Reply.maybe_buckle (parse_buckle label)))
  handle rounds Syscall.get_current_label = do
    l ← on_fs get_current_label
    pure (Handled.reply (Reply.current_label l))
  handle rounds (Syscall.taint_with_label label) = do
    l ← on_fs (taint_with_label label)
    pure (Handled.reply (Reply.current_label l))
  handle rounds (Syscall.declassify target) = do
    result ← on_fs (Utils.declassify target)
    pure (Handled.reply (Reply.maybe_buckle (maybe_buckle result)))
  handle rounds (Syscall.sub_privilege tokens) = panics
  handle rounds Syscall.root = do r ← Dents.root; pure (Handled.reply (Reply.dent_result r))
  handle rounds (Syscall.dent_open fd entry) = do
    e ← unwrap entry
    r ← Dents.dent_open fd e
    pure (Handled.reply (Reply.open_result r))
  handle rounds (Syscall.dent_close fd) = do Dents.dent_close fd; pure (Handled.reply Reply.nothing)
  handle rounds (Syscall.dent_create none label) =
      pure (Handled.reply (Reply.dent_result (plain_result false none none)))
  handle rounds (Syscall.dent_create (some kind) label) = do
    r ← or_failed (Edit.dent_create kind label)
    pure (Handled.reply (Reply.dent_result r))
  handle rounds (Syscall.dent_update none fd) =
      pure (Handled.reply (Reply.dent_result (plain_result false none none)))
  handle rounds (Syscall.dent_update (some kind) fd) = do
    r ← or_failed (Edit.dent_update fd kind)
    pure (Handled.reply (Reply.dent_result r))
  handle rounds (Syscall.dent_read fd) = do
    r ← Dents.dent_read fd
    pure (Handled.reply (Reply.dent_result r))
  handle rounds (Syscall.dent_list fd) = do
    r ← Dents.dent_list fd
    pure (Handled.reply (Reply.list_result r))
  handle rounds (Syscall.dent_ls_faceted fd clearance) = do
    r ← Dents.dent_list_faceted fd (or_else public clearance)
    pure (Handled.reply (Reply.ls_faceted_result r))
  handle rounds (Syscall.dent_ls_gate fd) = do
    r ← Dents.dent_ls_gate fd
    pure (Handled.reply (Reply.ls_gate_result r))
  handle rounds (Syscall.dent_link dir_fd name target_fd) = do
    r ← Dents.dent_link dir_fd name target_fd
    pure (Handled.reply (Reply.dent_result r))
  handle rounds (Syscall.dent_unlink fd name) = do
    r ← Dents.dent_unlink fd name
    pure (Handled.reply (Reply.dent_result r))
  handle rounds (Syscall.dent_invoke fd sync payload toblob parameters) = do
    r ← Invoke.dent_invoke rounds fd payload sync toblob parameters
    pure (Handled.reply (Reply.invoke_result r))
  handle rounds (Syscall.dent_get_blob fd) = do
    r ← Blobs.dent_get_blob fd
    pure (Handled.reply (Reply.blob_result r))
  handle rounds (Syscall.blob_create size) = do
    r ← Blobs.blob_create
    pure (Handled.reply (Reply.blob_result r))
  handle rounds (Syscall.blob_write fd bytes) = do
    r ← Blobs.blob_write fd bytes
    pure (Handled.reply (Reply.blob_result r))
  handle rounds (Syscall.blob_finalize fd) = do
    r ← Blobs.blob_finalize fd
    pure (Handled.reply (Reply.blob_result r))
  handle rounds (Syscall.blob_read fd offset amount) = do
    r ← Blobs.blob_read fd (or_else 0 offset) (or_else 4096 amount)
    pure (Handled.reply (Reply.blob_result r))
  handle rounds (Syscall.blob_close fd) = do
    r ← Blobs.blob_close fd
    pure (Handled.reply (Reply.blob_result r))

  -- How the loop of `run` ends.
  pub data Ended : Type 0 where
    returned : TaskReturn → Ended
    stopped : ProcessorError → Ended
    failed : FsError → Ended
    panicked endless : Ended
    -- Nothing comes in any more, and `wait` does not return.
    waiting : Ended

  abbrev pub Served : Type 0
  Served = Ended × List Reply × Server

  -- A reply is sent before the next call is read.
  unfoldable pub answer : Bool → (Server → Served) → Outcome Handled × Server → Served
  answer sent again (ok (Handled.finished tr), s) = (Ended.returned tr, [], s)
  answer true again (ok (Handled.reply r), s) =
      let (e, replies, s') = again s in (e, r ∷ replies, s')
  answer false again (ok (Handled.reply r), s) = (Ended.stopped ProcessorError.write_failed, [], s)
  answer sent again (err e, s) = (Ended.failed e, [], s)
  answer sent again (panic, s) = (Ended.panicked, [], s)
  answer sent again (diverges, s) = (Ended.endless, [], s)

  -- The loop, on what comes in.
  unfoldable pub serve : ⦃D : Digest⦄ → ℕ → List Incoming → Server → Served
  unfolding answer
  serve rounds [] s = (Ended.waiting, [], s)
  serve rounds (Incoming.nothing ∷ rest) s = serve rounds rest s
  serve rounds (Incoming.broken ∷ rest) s = (Ended.stopped ProcessorError.read_failed, [], s)
  serve rounds (Incoming.call sc sent ∷ rest) s =
      let again = serve rounds rest in answer sent again (handle rounds sc s)

  -- `SyscallProcessor::new` on an environment.
  unfoldable pub new_processor : Buckle → Component → Server → Server
  new_processor label privilege env = record env {
    world = record env.world { label = lub public label; privilege = privilege };
    dents = (0, DirEntry.directory root_ref) ∷ [];
    blobs = [];
    create_blobs = [];
    max_dent_id = 1;
    max_blob_id = 1;
  }

  -- `SyscallProcessor::new_insecure` on an environment.
  unfoldable pub new_insecure : Server → Server
  new_insecure env = record env {
    dents = [];
    blobs = [];
    create_blobs = [];
    max_blob_id = 0;
    max_dent_id = 0;
  }

  -- The blobs that a task is given, each under a new descriptor.
  unfoldable pub take_blobs : Dict String OpenBlob → Server → Dict String ℕ × Server
  unfolding new_blob
  take_blobs [] s = ([], s)
  take_blobs ((k, b) ∷ rest) s =
      let (fds, s') = take_blobs rest (new_blob b s).1 in ((k, s.max_blob_id) ∷ fds, s')

  -- `run`. `principals` is what the crate's formula gives as a list of principals, none where it is
  -- no conjunction of them, and then the code panics; `sent` is whether the request can be sent.
  unfoldable pub run :
      ⦃D : Digest⦄
      → ℕ
      → (Component → Option (List (List String)))
      → File
      → Dict String OpenBlob
      → Dict String String
      → Component
      → Bool
      → List Incoming
      → Server
      → Served
  unfolding answer
  run rounds principals payload blobs headers invoker sent incoming s =
      let (blobfds, s') = take_blobs blobs s in
      elim (principals invoker) [
        | none ↦ (Ended.panicked, [], s')
        | some ps ↦
            answer sent (serve rounds incoming)
              (ok (Handled.reply (Reply.request payload blobfds headers ps)), s')
      ]
