-- ===== src/Syscall/Edit.antt =====
-- The system calls that create and replace entries: `dent_create` and `dent_update` of
-- snapfaas/src/syscall_server.rs.
use faasten.Base.{ℕ, zero, String, true, Option, none, some, number_eq}
use faasten.Labels.{Labels, Buckle, public, dc_true}
use faasten.Fs.Errors.{FsError}
use faasten.Fs.Types.{DirEntry, Gate, Service, Function, BlobRef, GateRef}
use faasten.Fs.World.{Serde}
use faasten.Fs.Object.{
  read_blob_ref, get, unlabel, write_file_ref, gate_replace, service_replace, blob_replace,
}
use faasten.Fs.Ops
use faasten.Syscall.Messages.{
  DentResult, CreateKind, UpdateKind, GateMessage, DirectGateMessage, RedirectGateMessage,
  ServiceMessage, FunctionMessage, verb_of,
}
use faasten.Syscall.Server.{
  Call, ◌>>=◌, ◌>>◌, pure, throw, unwrap, ok_or, on_fs, dent, new_dent, open_blob,
}
use faasten.Syscall.Dents.{plain_result}

abbrev pub or_else {ℓ} : {A : Type ℓ} → A → Option A → A
or_else a none = a
or_else a (some b) = b

module _ ⦃L : Labels⦄ ⦃S : Serde⦄ where
  -- The blob's entry under a descriptor.
  unfoldable pub blob_entry : ℕ → Call BlobRef
  blob_entry fd = do
    found ← dent fd
    d ← ok_or FsError.invalid_fd found
    elim d [ DirEntry.blob r ↦ pure r | _ ↦ throw FsError.not_a_blob ]

  unfoldable pub function_of : FunctionMessage → Call Function
  function_of f = do
    app_image ← blob_entry f.app_image
    runtime_image ← blob_entry f.runtime
    kernel ← blob_entry f.kernel
    app_name ← on_fs (read_blob_ref app_image)
    runtime_name ← on_fs (read_blob_ref runtime_image)
    kernel_name ← on_fs (read_blob_ref kernel)
    pure (record {
      memory = f.memory;
      app_image = app_name;
      runtime_image = runtime_name;
      kernel = kernel_name;
    })

  unfoldable pub create_gate : Buckle → Option GateMessage → Call DirEntry
  create_gate label none = throw FsError.not_a_gate
  create_gate label (some (GateMessage.direct dg)) = do
    function ← unwrap dg.function
    func ← function_of function
    privilege ← unwrap dg.privilege
    clearance ← unwrap dg.invoker_integrity_clearance
    on_fs (
        Ops.create_direct_gate label (record {
          privilege = privilege;
          invoker_integrity_clearance = clearance;
          declassify = or_else dc_true dg.declassify;
          function = func;
        }))
  create_gate label (some (GateMessage.redirect rd)) = do
    target ← dent rd.gate
    elim target [
      | some (DirEntry.gate r) ↦ do
        privilege ← unwrap rd.privilege
        clearance ← unwrap rd.invoker_integrity_clearance
        on_fs (
            Ops.create_redirect_gate label (record {
              privilege = privilege;
              invoker_integrity_clearance = clearance;
              declassify = or_else dc_true rd.declassify;
              gate = r;
            }))
      | _ ↦ throw FsError.not_a_gate
    ]

  unfoldable pub service_of : ServiceMessage → Call Service
  service_of s = do
    taint ← unwrap s.taint
    privilege ← unwrap s.privilege
    clearance ← unwrap s.invoker_integrity_clearance
    pure (record {
      privilege = privilege;
      invoker_integrity_clearance = clearance;
      taint = taint;
      url = s.url;
      verb = verb_of s.verb;
      headers = s.headers;
    })

  -- The match of `dent_create`.
  unfoldable pub create_entry : Buckle → CreateKind → Call DirEntry
  create_entry label CreateKind.directory = on_fs (Ops.create_directory label)
  create_entry label CreateKind.file = on_fs (Ops.create_file label)
  create_entry label CreateKind.faceted_directory = on_fs Ops.create_faceted_directory
  create_entry label (CreateKind.gate g) = create_gate label g
  create_entry label (CreateKind.service s) = do
    service ← service_of s
    on_fs (Ops.create_service label service)
  create_entry label (CreateKind.blob blobfd) = do
    found ← open_blob blobfd
    b ← ok_or FsError.not_a_blob found
    on_fs (Ops.create_blob label b.name)

  unfoldable pub dent_create : CreateKind → Option Buckle → Call DentResult
  dent_create kind label = do
    entry ← create_entry (or_else public label) kind
    res_id ← new_dent entry
    pure (plain_result true (some res_id) none)

  -- The name of an image: that of the blob under the descriptor, or for 0 the one it was.
  unfoldable pub image_update : ℕ → String → Call String
  image_update zero old = pure old
  image_update fd old = do r ← blob_entry fd; on_fs (read_blob_ref r)

  abbrev pub memory_update : ℕ → ℕ → ℕ
  memory_update zero old = old
  memory_update memory old = memory

  unfoldable pub function_update : Option FunctionMessage → Function → Call Function
  unfolding image_update
  function_update none old = pure old
  function_update (some f) old = do
    app_image ← image_update f.app_image old.app_image
    runtime_image ← image_update f.runtime old.runtime_image
    kernel ← image_update f.kernel old.kernel
    pure (record {
      memory = memory_update f.memory old.memory;
      app_image = app_image;
      runtime_image = runtime_image;
      kernel = kernel;
    })

  -- The gate that is stored; where there is none, the entry is taken for no gate.
  unfoldable pub stored_gate : GateRef → Call Gate
  stored_gate r = do
    found ← on_fs (get r)
    stored ← ok_or FsError.not_a_gate found
    on_fs (unlabel stored)

  unfoldable pub update_direct : GateRef → DirectGateMessage → Gate → Call (Unit {0})
  update_direct r dg (Gate.direct old) = do
    function ← function_update dg.function old.function
    on_fs (
        gate_replace r (
          Gate.direct (record old {
            privilege = or_else old.privilege dg.privilege;
            invoker_integrity_clearance =
                or_else old.invoker_integrity_clearance dg.invoker_integrity_clearance;
            function = function;
          })))
  update_direct r dg (Gate.redirect _) = throw FsError.not_a_gate

  unfoldable pub update_redirect : GateRef → RedirectGateMessage → Gate → Call (Unit {0})
  update_redirect r rd (Gate.redirect old) = do
    target ← dent rd.gate
    elim target [
      | some (DirEntry.gate t) ↦ on_fs (
          gate_replace r (
            Gate.redirect (record old {
              privilege = or_else old.privilege rd.privilege;
              invoker_integrity_clearance =
                  or_else old.invoker_integrity_clearance rd.invoker_integrity_clearance;
              gate = t;
            })))
      | _ ↦ throw FsError.not_a_gate
    ]
  update_redirect r rd (Gate.direct _) = throw FsError.not_a_gate

  -- The part of the match of `dent_update` on a gate's entry.
  unfoldable pub update_gate : GateRef → Option GateMessage → Call (Unit {0})
  unfolding update_direct update_redirect
  update_gate r none = throw FsError.not_a_gate
  update_gate r (some (GateMessage.direct dg)) = do g ← stored_gate r; update_direct r dg g
  update_gate r (some (GateMessage.redirect rd)) = do g ← stored_gate r; update_redirect r rd g

  -- The match of `dent_update`.
  unfoldable pub update_entry : ℕ → UpdateKind → Call (Unit {0})
  unfolding update_gate
  update_entry fd (UpdateKind.file bytes) = do
    d ← dent fd
    elim d [
      | some (DirEntry.file r) ↦ on_fs (write_file_ref r bytes)
      | _ ↦ throw FsError.not_a_file
    ]
  update_entry fd (UpdateKind.gate kind) = do
    d ← dent fd
    elim d [ some (DirEntry.gate r) ↦ update_gate r kind | _ ↦ throw FsError.not_a_gate ]
  update_entry fd (UpdateKind.service s) = do
    d ← dent fd
    elim d [
      | some (DirEntry.service r) ↦ do service ← service_of s; on_fs (service_replace r service)
      | _ ↦ throw FsError.not_a_service
    ]
  update_entry fd (UpdateKind.blob blobfd) = do
    found ← open_blob blobfd
    b ← ok_or FsError.not_a_blob found
    d ← dent fd
    elim d [ some (DirEntry.blob r) ↦ on_fs (blob_replace r b.name) | _ ↦ throw FsError.not_a_blob ]

  unfoldable pub dent_update : ℕ → UpdateKind → Call DentResult
  dent_update fd kind = do update_entry fd kind; pure (plain_result true none none)
