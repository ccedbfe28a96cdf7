-- ===== src/Fs/Utils.antt =====
-- snapfaas/src/fs/utils.rs: helpers of the tools, and the operations on the thread's labels.
use faasten.Base.{ℕ, String, Option, none, some, if◌then◌else◌, name_eq, inl, inr, ◌⊎◌}
use faasten.Base.Dict.{Dict}
use faasten.Base.Dict
use faasten.Labels.{
  Labels, Component, Buckle, new_buckle, public, ◌&◌, implies, lub, downgrade, secrecy, integrity,
}
use faasten.Fs.Errors.{FsError, GateError}
use faasten.Fs.Types.{DirEntry, DirectoryRef, File, Blob, Function, DirectGate}
use faasten.Fs.World.{Serde, ok, Action, ◌>>=◌, ◌>>◌, pure, throw, panics, ensure}
use faasten.Fs.Object.{list, link, unlink, write_file_ref, blob_replace, gate_to_invokable}
use faasten.Fs.Path.{FilePath}
use faasten.Fs.Ops
use faasten.Fs.Ops.{read_path, create_file, create_blob, create_faceted_directory, list_dir}

module _ ⦃L : Labels⦄ ⦃S : Serde⦄ where
  unfoldable pub get_current_label : Action Buckle
  get_current_label w = (ok w.label, w)

  unfoldable pub get_privilege : Action Component
  get_privilege w = (ok w.privilege, w)

  -- The user's facet: the privilege as secrecy and as integrity.
  unfoldable pub get_ufacet : Action Buckle
  get_ufacet w = (ok (new_buckle w.privilege w.privilege), w)

  unfoldable pub taint_with_label : Buckle → Action Buckle
  taint_with_label label w =
      let label' : Buckle = lub w.label label in (ok label', record w { label = label' })

  unfoldable pub clear_label : Action (Unit {0})
  clear_label w = (ok tt, record w { label = public })

  unfoldable pub set_my_privilege : Component → Action (Unit {0})
  set_my_privilege newpriv w = (ok tt, record w { privilege = newpriv })

  unfoldable pub declassify_with : Component → Action Buckle
  declassify_with my_priv w =
      let label' : Buckle = downgrade w.label my_priv in (ok label', record w { label = label' })

  -- `Result<Buckle, Buckle>`: the label that the target would give, or the current label.
  unfoldable pub declassify : Component → Action (Buckle ⊎ Buckle)
  declassify target w =
      if implies (target & w.privilege) (secrecy w.label)
      then (ok (inl (new_buckle target (integrity w.label))), w)
      else (ok (inr w.label), w)

  unfoldable pub write_new_file : DirEntry → File → Action (Unit {0})
  write_new_file (DirEntry.file fileentry) bytes = write_file_ref fileentry bytes
  write_new_file _ bytes = panics

  -- What two branches of `create_or_update_file` share: a new file with the data, linked in.
  unfoldable pub link_new_file : DirectoryRef → String → Buckle → File → Action (Unit {0})
  unfolding write_new_file
  link_new_file dir name label bytes = do
    new_file ← create_file label
    write_new_file new_file bytes
    link dir name new_file
    pure tt

  unfoldable pub update_file :
      DirectoryRef → String → Buckle → File → Option DirEntry → Action (Unit {0})
  unfolding link_new_file
  update_file dir name label bytes (some (DirEntry.file fileentry)) = write_file_ref fileentry bytes
  update_file dir name label bytes (some _) = do unlink dir name; link_new_file dir name label bytes
  update_file dir name label bytes none = link_new_file dir name label bytes

  unfoldable pub create_or_update_file : FilePath → String → Buckle → File → Action (Unit {0})
  create_or_update_file base_dir name label bytes = do
    base ← read_path base_dir
    elim base [
      | DirEntry.directory dir ↦ do
        entries ← list dir
        update_file dir name label bytes (Dict.get name entries)
      | _ ↦ throw FsError.bad_path
    ]

  -- What two branches of `create_or_update_blob` share.
  unfoldable pub link_new_blob : DirectoryRef → String → Buckle → Blob → Action (Unit {0})
  link_new_blob dir name label blob_name = do
    new_blob ← create_blob label blob_name
    link dir name new_blob
    pure tt

  unfoldable pub update_blob :
      DirectoryRef → String → Buckle → Blob → Option DirEntry → Action (Unit {0})
  unfolding link_new_blob
  update_blob dir name label blob_name (some (DirEntry.blob blobentry)) =
      blob_replace blobentry blob_name
  update_blob dir name label blob_name (some _) = do
    unlink dir name
    link_new_blob dir name label blob_name
  update_blob dir name label blob_name none = link_new_blob dir name label blob_name

  unfoldable pub create_or_update_blob : FilePath → String → Buckle → Blob → Action (Unit {0})
  create_or_update_blob base_dir name label blob_name = do
    base ← read_path base_dir
    elim base [
      | DirEntry.directory dir ↦ do
        entries ← list dir
        update_blob dir name label blob_name (Dict.get name entries)
      | _ ↦ throw FsError.bad_path
    ]

  unfoldable pub create_faceted : FilePath → String → Action (Unit {0})
  create_faceted base_dir name = do
    entries ← list_dir base_dir
    if Dict.contains_key name entries
        then throw FsError.name_exists
        else do new_dir ← create_faceted_directory; Ops.link base_dir name new_dir

  unfoldable pub check_clearance : DirectGate → Action (Function × Component)
  check_clearance g = do
    ensure (λ w. implies w.privilege g.invoker_integrity_clearance)
        (FsError.gate_error GateError.cannot_invoke)
    pure (g.function, g.privilege)

  unfoldable pub resolve_gate_with_clearance_check : ℕ → FilePath → Action (Function × Component)
  resolve_gate_with_clearance_check rounds path = do
    e ← read_path path
    elim e [
      | DirEntry.gate gate ↦ do
        direct_gate ← gate_to_invokable rounds gate
        check_clearance direct_gate
      | _ ↦ throw FsError.not_a_gate
    ]
