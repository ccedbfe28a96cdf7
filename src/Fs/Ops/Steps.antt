-- ===== src/Fs/Ops/Steps.antt =====
-- Every method of `FS`, and every helper of fs/utils.rs that works on files, keeps to any policy.
use faasten.Base.{ℕ, String, Option, none, some, List, [], ◌∷◌}
use faasten.Labels.{Labels, Buckle}
use faasten.Fs.Types.{DirectoryRef, File, Blob, DirEntry, Service, DirectGate, RedirectGate}
use faasten.Fs.World.{Serde}
use faasten.Fs.World.Steps.{
  Policy, Steps, Steps-bind, Steps-if, Steps-pure, Steps-throw, Steps-panics, Steps-backing_add,
  step_rules,
}
use faasten.Fs.Object.Steps.{
  object_steps, Steps-list, Steps-link, Steps-unlink, Steps-read_file_ref, Steps-write_file_ref,
  Steps-list_facets, Steps-check_delegation, Steps-check_flow, Steps-read_blob_ref,
  Steps-blob_replace, Steps-open_facet, Steps-gate_to_invokable,
}
use faasten.Fs.Path.{PathComponent, dscrp, facet, FilePath}
use faasten.Fs.Ops.{
  initialize, root, step_path, walk, read_components, read_path, list_dir, rm, list_faceted,
  read_file, write_file, create_file, create_blob, create_directory, create_faceted_directory,
  create_direct_gate, create_redirect_gate, create_service, link, open_blob, replace_blob,
}
use faasten.Fs.Utils.{
  link_new_file, write_new_file, update_file, create_or_update_file, link_new_blob, update_blob,
  create_or_update_blob, create_faceted, check_clearance, resolve_gate_with_clearance_check,
}

module _ ⦃L : Labels⦄ ⦃S : Serde⦄ {p : Policy} where
  pub Steps-initialize : Steps p initialize
  unfolding initialize
  Steps-initialize = Steps-backing_add _ _

  Steps-root : Steps p root
  unfolding root
  Steps-root = search object_steps

  Steps-step_path : (e : Option DirEntry) (c : PathComponent) → Steps p (step_path e c)
  unfolding step_path
  Steps-step_path (some (DirEntry.directory d)) (dscrp name) = search (object_steps, Steps-list)
  Steps-step_path (some (DirEntry.faceted_directory d)) (facet f) =
      search (object_steps, Steps-open_facet)
  Steps-step_path _ _ = Steps-throw _

  Steps-walk : (e : Option DirEntry) (cs : List PathComponent) → Steps p (walk e cs)
  unfolding walk
  Steps-walk e [] = Steps-pure e
  Steps-walk e (c ∷ cs) = Steps-bind _ _ (Steps-step_path e c) λ next. Steps-walk next cs

  Steps-read_components : (cs : List PathComponent) → Steps p (read_components cs)
  unfolding read_components
  Steps-read_components [] = Steps-pure _
  Steps-read_components (facet f ∷ cs) = Steps-pure _
  Steps-read_components (dscrp name ∷ cs) = search (object_steps, Steps-root, Steps-walk)

  pub Steps-read_path : (path : FilePath) → Steps p (read_path path)
  unfolding read_path
  Steps-read_path path = Steps-read_components path.components

  pub Steps-list_dir : (path : FilePath) → Steps p (list_dir path)
  unfolding list_dir
  Steps-list_dir path =
      Steps-bind _ _ (Steps-read_path path)
        (elim [ DirEntry.directory d ↦ Steps-list d | _ ↦ Steps-throw _ ])

  pub Steps-rm : (path : FilePath) (name : String) → Steps p (rm path name)
  unfolding rm
  Steps-rm path name =
      Steps-bind _ _ (Steps-read_path path)
        (elim [ DirEntry.directory d ↦ Steps-unlink d name | _ ↦ Steps-throw _ ])

  pub Steps-list_faceted : (path : FilePath) (c : Buckle) → Steps p (list_faceted path c)
  unfolding list_faceted
  Steps-list_faceted path c =
      Steps-bind _ _ (Steps-read_path path)
        (elim [ DirEntry.faceted_directory d ↦ Steps-list_facets d c | _ ↦ Steps-throw _ ])

  pub Steps-read_file : (path : FilePath) → Steps p (read_file path)
  unfolding read_file
  Steps-read_file path =
      Steps-bind _ _ (Steps-read_path path)
        (elim [ DirEntry.file f ↦ Steps-read_file_ref f | _ ↦ Steps-throw _ ])

  pub Steps-write_file : (path : FilePath) (bytes : File) → Steps p (write_file path bytes)
  unfolding write_file
  Steps-write_file path bytes =
      Steps-bind _ _ (Steps-read_path path)
        (elim [ DirEntry.file f ↦ Steps-write_file_ref f bytes | _ ↦ Steps-throw _ ])

  pub Steps-create_file : (l : Buckle) → Steps p (create_file l)
  unfolding create_file
  Steps-create_file l = search object_steps

  pub Steps-create_blob : (l : Buckle) (b : Blob) → Steps p (create_blob l b)
  unfolding create_blob
  Steps-create_blob l b = search (object_steps, Steps-blob_replace)

  pub Steps-create_directory : (l : Buckle) → Steps p (create_directory l)
  unfolding create_directory
  Steps-create_directory l = search object_steps

  pub Steps-create_faceted_directory : Steps p create_faceted_directory
  unfolding create_faceted_directory
  Steps-create_faceted_directory = search object_steps

  pub Steps-create_direct_gate : (l : Buckle) (g : DirectGate) → Steps p (create_direct_gate l g)
  unfolding create_direct_gate
  Steps-create_direct_gate l g = search (object_steps, Steps-check_delegation, Steps-check_flow)

  pub Steps-create_redirect_gate :
      (l : Buckle) (g : RedirectGate) → Steps p (create_redirect_gate l g)
  unfolding create_redirect_gate
  Steps-create_redirect_gate l g = search (object_steps, Steps-check_delegation, Steps-check_flow)

  pub Steps-create_service : (l : Buckle) (s : Service) → Steps p (create_service l s)
  unfolding create_service
  Steps-create_service l s = search (object_steps, Steps-check_delegation, Steps-check_flow)

  pub Steps-link_path :
      (path : FilePath) (name : String) (e : DirEntry) → Steps p (link path name e)
  unfolding link
  Steps-link_path path name e = Steps-bind _ _ (Steps-read_path path) (elim [
    | DirEntry.directory d ↦
        Steps-bind _ _ (Steps-link d name e) λ b. Steps-if b _ _ (Steps-pure _) (Steps-throw _)
    | _ ↦ Steps-throw _
  ])

  pub Steps-open_blob : (path : FilePath) → Steps p (open_blob path)
  unfolding open_blob
  Steps-open_blob path =
      Steps-bind _ _ (Steps-read_path path)
        (elim [ DirEntry.blob b ↦ Steps-read_blob_ref b | _ ↦ Steps-throw _ ])

  pub Steps-replace_blob : (path : FilePath) (b : Blob) → Steps p (replace_blob path b)
  unfolding replace_blob
  Steps-replace_blob path b =
      Steps-bind _ _ (Steps-read_path path)
        (elim [ DirEntry.blob r ↦ Steps-blob_replace r b | _ ↦ Steps-throw _ ])

  Steps-write_new_file : (e : DirEntry) (bytes : File) → Steps p (write_new_file e bytes)
  unfolding write_new_file
  Steps-write_new_file (DirEntry.file f) bytes = Steps-write_file_ref f bytes
  Steps-write_new_file _ bytes = Steps-panics

  Steps-link_new_file :
      (d : DirectoryRef) (name : String) (l : Buckle) (bytes : File)
      → Steps p (link_new_file d name l bytes)
  unfolding link_new_file
  Steps-link_new_file d name l bytes =
      search (object_steps, Steps-create_file, Steps-write_new_file, Steps-link) depth 8

  Steps-update_file :
      (d : DirectoryRef) (name : String) (l : Buckle) (bytes : File) (o : Option DirEntry)
      → Steps p (update_file d name l bytes o)
  unfolding update_file
  Steps-update_file d name l bytes none = Steps-link_new_file d name l bytes
  Steps-update_file d name l bytes (some (DirEntry.file f)) = Steps-write_file_ref f bytes
  Steps-update_file d name l bytes (some _) =
      Steps-bind _ _ (Steps-unlink d name) λ _. Steps-link_new_file d name l bytes

  pub Steps-create_or_update_file :
      (path : FilePath) (name : String) (l : Buckle) (bytes : File)
      → Steps p (create_or_update_file path name l bytes)
  unfolding create_or_update_file
  Steps-create_or_update_file path name l bytes = Steps-bind _ _ (Steps-read_path path) (elim [
    | DirEntry.directory d ↦
        Steps-bind _ _ (Steps-list d) λ entries. Steps-update_file d name l bytes _
    | _ ↦ Steps-throw _
  ])

  Steps-link_new_blob :
      (d : DirectoryRef) (name : String) (l : Buckle) (b : Blob)
      → Steps p (link_new_blob d name l b)
  unfolding link_new_blob
  Steps-link_new_blob d name l b = search (object_steps, Steps-create_blob, Steps-link) depth 8

  Steps-update_blob :
      (d : DirectoryRef) (name : String) (l : Buckle) (b : Blob) (o : Option DirEntry)
      → Steps p (update_blob d name l b o)
  unfolding update_blob
  Steps-update_blob d name l b none = Steps-link_new_blob d name l b
  Steps-update_blob d name l b (some (DirEntry.blob r)) = Steps-blob_replace r b
  Steps-update_blob d name l b (some _) =
      Steps-bind _ _ (Steps-unlink d name) λ _. Steps-link_new_blob d name l b

  pub Steps-create_or_update_blob :
      (path : FilePath) (name : String) (l : Buckle) (b : Blob)
      → Steps p (create_or_update_blob path name l b)
  unfolding create_or_update_blob
  Steps-create_or_update_blob path name l b = Steps-bind _ _ (Steps-read_path path) (elim [
    | DirEntry.directory d ↦ Steps-bind _ _ (Steps-list d) λ entries. Steps-update_blob d name l b _
    | _ ↦ Steps-throw _
  ])

  pub Steps-create_faceted : (path : FilePath) (name : String) → Steps p (create_faceted path name)
  unfolding create_faceted
  Steps-create_faceted path name = Steps-bind _ _ (Steps-list_dir path) λ entries.
      Steps-if _ _ _ (Steps-throw _)
        (Steps-bind _ _ Steps-create_faceted_directory λ d. Steps-link_path path name d)

  Steps-check_clearance : (g : DirectGate) → Steps p (check_clearance g)
  unfolding check_clearance
  Steps-check_clearance g = search step_rules

  pub Steps-resolve_gate :
      (rounds : ℕ) (path : FilePath) → Steps p (resolve_gate_with_clearance_check rounds path)
  unfolding resolve_gate_with_clearance_check
  Steps-resolve_gate rounds path = Steps-bind _ _ (Steps-read_path path) (elim [
    | DirEntry.gate g ↦ Steps-bind _ _ (Steps-gate_to_invokable rounds g) Steps-check_clearance
    | _ ↦ Steps-throw _
  ])
