-- ===== src/Fs/Ops.antt =====
-- The methods of `FS` in snapfaas/src/fs/mod.rs.
pub mod Steps
pub mod Creates
use faasten.Base.{
  ℕ, zero, suc, String, Bool, true, false, not, Option, none, some, List, [], ◌∷◌, if◌then◌else◌,
  name_eq,
}
use faasten.Base.Dict.{Dict}
use faasten.Base.Dict
use faasten.Labels.{
  Labels, Component, Buckle, dc_true, dc_false, new_buckle, implies, can_flow_to_with_privilege,
}
use faasten.Fs.Errors.{FsError, LabelError, PrivilegeError}
use faasten.Fs.Types.{
  Item, Kind, DirectoryRef, ObjectRef, Labeled, Directory, File, Blob, DirEntry, FacetedDirectory,
  Service, Gate, direct, redirect, DirectGate, RedirectGate, root_ref,
}
use faasten.Fs.World.{
  Serde, Outcome, ok, err, Action, ◌>>=◌, ◌>>◌, pure, throw, ensure, ok_or, backing_add, World,
  continue,
}
use faasten.Fs.Object.{
  get, set_new_id, unlabel, create, list, link as link_ref, unlink, read_file_ref, write_file_ref,
  open_facet, list_facets, read_blob_ref, blob_replace, empty_directory, check_delegation,
  check_flow,
}
use faasten.Fs.Path.{PathComponent, dscrp, facet, FilePath}

module _ ⦃L : Labels⦄ ⦃S : Serde⦄ where
  abbrev pub new_root : Labeled Directory
  new_root = record { label = new_buckle dc_true dc_false; contents = empty_directory }

  -- True if the root is new, false if there was one.
  unfoldable pub initialize : Action Bool
  initialize = backing_add root_ref.uid (S.to_vec (Kind.labeled Item.directory) new_root)

  abbrev pub or_new_root : Option (Labeled Directory) → Labeled Directory
  or_new_root none = new_root
  or_new_root (some d) = d

  unfoldable pub root : Action (Labeled Directory)
  root = do d ← get root_ref; pure (or_new_root d)

  -- One round of the loop of `read_path`: the entry so far, and the next component.
  unfoldable pub step_path : Option DirEntry → PathComponent → Action (Option DirEntry)
  step_path (some (DirEntry.directory dir_obj)) (dscrp name) = do
    entries ← list dir_obj
    pure (Dict.get name entries)
  step_path (some (DirEntry.faceted_directory facet_obj)) (facet f) = do
    dir ← open_facet facet_obj f
    pure (some (DirEntry.directory dir))
  step_path _ _ = throw FsError.bad_path

  unfoldable pub walk : Option DirEntry → List PathComponent → Action (Option DirEntry)
  walk cur_entry [] = pure cur_entry
  walk cur_entry (c ∷ cs) =
      let rest = λ (e : Option DirEntry). walk e cs in do next ← step_path cur_entry c; rest next

  unfoldable pub read_components : List PathComponent → Action DirEntry
  read_components (dscrp name ∷ cs) = do
    d ← root
    contents ← unlabel d
    found ← walk (Dict.get name contents.entries) cs
    ok_or FsError.bad_path found
  read_components _ = pure (DirEntry.directory root_ref)

  unfoldable pub read_path : FilePath → Action DirEntry
  unfolding read_components
  read_path path = read_components path.components

  unfoldable pub list_dir : FilePath → Action (Dict String DirEntry)
  list_dir path = do
    e ← read_path path
    elim e [ DirEntry.directory dir_obj ↦ list dir_obj | _ ↦ throw FsError.not_a_dir ]

  unfoldable pub rm : FilePath → String → Action Bool
  rm dir name = do
    e ← read_path dir
    elim e [ DirEntry.directory dir_obj ↦ unlink dir_obj name | _ ↦ throw FsError.not_a_dir ]

  unfoldable pub list_faceted : FilePath → Buckle → Action (Dict Buckle DirectoryRef)
  list_faceted path clearance = do
    e ← read_path path
    elim e [
      | DirEntry.faceted_directory dir_obj ↦ list_facets dir_obj clearance
      | _ ↦ throw FsError.not_a_dir
    ]

  unfoldable pub read_file : FilePath → Action File
  read_file path = do
    e ← read_path path
    elim e [ DirEntry.file file_obj ↦ read_file_ref file_obj | _ ↦ throw FsError.not_a_file ]

  unfoldable pub write_file : FilePath → File → Action (Unit {0})
  write_file path bytes = do
    e ← read_path path
    elim e [ DirEntry.file file_obj ↦ write_file_ref file_obj bytes | _ ↦ throw FsError.not_a_file ]

  unfoldable pub create_file : Buckle → Action DirEntry
  create_file label = do new_file ← create Item.file [] label; pure (DirEntry.file new_file)

  unfoldable pub create_blob : Buckle → Blob → Action DirEntry
  create_blob label blob_name = do
    new_blob ← create Item.blob "" label
    blob_replace new_blob blob_name
    pure (DirEntry.blob new_blob)

  unfoldable pub create_directory : Buckle → Action DirEntry
  create_directory label = do
    new_dir ← create Item.directory empty_directory label
    pure (DirEntry.directory new_dir)

  unfoldable pub create_faceted_directory : Action DirEntry
  create_faceted_directory = do
    new_dir ← set_new_id Kind.faceted (record { facets = [] })
    pure (DirEntry.faceted_directory new_dir)

  unfoldable pub create_direct_gate : Buckle → DirectGate → Action DirEntry
  create_direct_gate label direct_gate = do
    check_flow label
    check_delegation direct_gate.privilege
    check_delegation direct_gate.declassify
    new_gate ←
        set_new_id (Kind.labeled Item.gate)
          (record { label = label; contents = direct direct_gate })
    pure (DirEntry.gate new_gate)

  unfoldable pub create_redirect_gate : Buckle → RedirectGate → Action DirEntry
  create_redirect_gate label redirect_gate = do
    check_flow label
    check_delegation redirect_gate.privilege
    check_delegation redirect_gate.declassify
    new_gate ←
        set_new_id (Kind.labeled Item.gate)
          (record { label = label; contents = redirect redirect_gate })
    pure (DirEntry.gate new_gate)

  unfoldable pub create_service : Buckle → Service → Action DirEntry
  create_service label service = do
    check_flow label
    check_delegation service.privilege
    new_service ←
        set_new_id (Kind.labeled Item.service) (record { label = label; contents = service })
    pure (DirEntry.service new_service)

  unfoldable pub link : FilePath → String → DirEntry → Action (Unit {0})
  link base_dir name direntry = do
    e ← read_path base_dir
    elim e [
      | DirEntry.directory dir_obj ↦ do
        success ← link_ref dir_obj name direntry
        if success then pure tt else throw FsError.name_exists
      | _ ↦ throw FsError.not_a_dir
    ]

  unfoldable pub open_blob : FilePath → Action Blob
  open_blob path = do
    e ← read_path path
    elim e [ DirEntry.blob blob_obj ↦ read_blob_ref blob_obj | _ ↦ throw FsError.not_a_blob ]

  unfoldable pub replace_blob : FilePath → Blob → Action (Unit {0})
  replace_blob path new_blob = do
    e ← read_path path
    elim e [
      | DirEntry.blob blob_obj ↦ blob_replace blob_obj new_blob
      | _ ↦ throw FsError.not_a_blob
    ]
