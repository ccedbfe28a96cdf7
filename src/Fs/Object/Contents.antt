-- ===== src/Fs/Object/Contents.antt =====
-- The operations on each type of object: the `impl ObjectRef<…>` blocks of snapfaas/src/fs/mod.rs.
use faasten.Base.{
  ℕ, zero, suc, String, Bool, true, false, not, Option, none, some, List, [], ◌∷◌, ◌++◌,
  if◌then◌else◌, is_some, ◌==◌, name_eq,
}
use faasten.Base.Dict.{Dict}
use faasten.Base.Dict
use faasten.Labels.{Labels, Component, Buckle, dc_true, ◌&◌, implies, can_flow_to, buckle_eq}
use faasten.Fs.Errors.{FsError, PrivilegeError}
use faasten.Fs.Types.{
  Item, Kind, DirectoryRef, FileRef, FacetedRef, GateRef, ServiceRef, BlobRef, ObjectRef, Labeled,
  Directory, File, Blob, DirEntry, FacetedDirectory, Service, Gate, direct, redirect, DirectGate,
}
use faasten.Fs.World.{
  Serde, swapped, conflict, Action, ◌>>=◌, ◌>>◌, pure, return_if, with_rounds, ensure, forever,
  unwrap, raise_label,
}
use faasten.Fs.Object.Core.{get, set, set_new_id, cas, unlabel, write, modify, get_labeled}

unfoldable pub insert_entry : String → DirEntry → Directory → Bool × Directory
unfolding Dict.insert_sorted
insert_entry name entry d = (
  is_some (Dict.get name d.entries),
  record { entries = Dict.insert_sorted name entry d.entries },
)

unfoldable pub remove_entry : String → Directory → Bool × Directory
unfolding Dict.remove
remove_entry name d =
    (is_some (Dict.get name d.entries), record { entries = Dict.remove name d.entries })

module _ ⦃L : Labels⦄ ⦃S : Serde⦄ where
  unfoldable pub list : DirectoryRef → Action (Dict String DirEntry)
  list r = do dir ← get_labeled r; contents ← unlabel dir; pure contents.entries

  -- One more round than the batches that are left: a round fails only when another thread writes.
  unfoldable pub link_loop : ℕ → DirectoryRef → String → DirEntry → Labeled Directory → Action Bool
  link_loop zero r name entry prev_dir = forever
  link_loop (suc n) r name entry prev_dir =
      let again = link_loop n r name entry in
      do
        (existed, labeled_dir) ← modify prev_dir (insert_entry name entry)
        if existed then pure false else do
          res ← cas r (some prev_dir) labeled_dir
          elim res [
            | conflict found ↦ elim found [ some p ↦ again p | none ↦ pure true ]
            | swapped ↦ pure true
          ]

  unfoldable pub link : DirectoryRef → String → DirEntry → Action Bool
  link r name entry = do
    prev_dir ← get_labeled r
    with_rounds (λ n. link_loop n r name entry prev_dir)

  unfoldable pub unlink_loop : ℕ → DirectoryRef → String → Labeled Directory → Action Bool
  unlink_loop zero r name prev_dir = forever
  unlink_loop (suc n) r name prev_dir =
      let again = unlink_loop n r name in
      do
        (existed, labeled_dir) ← modify prev_dir (remove_entry name)
        if not existed then pure false else do
          res ← cas r (some prev_dir) labeled_dir
          elim res [
            | conflict found ↦ elim found [ some p ↦ again p | none ↦ pure true ]
            | swapped ↦ pure true
          ]

  unfoldable pub unlink : DirectoryRef → String → Action Bool
  unlink r name = do prev_dir ← get_labeled r; with_rounds (λ n. unlink_loop n r name prev_dir)

  -- `ObjectRef<Labeled<File>>::read`.
  unfoldable pub read_file_ref : FileRef → Action File
  read_file_ref r = do file ← get_labeled r; unlabel file

  -- `ObjectRef<Labeled<File>>::write`.
  unfoldable pub write_file_ref : FileRef → File → Action (Unit {0})
  write_file_ref r bytes = do file ← get_labeled r; file' ← write file bytes; set r file'

  unfoldable pub find_facet : Buckle → List (Buckle × DirectoryRef) → Option DirectoryRef
  find_facet facet [] = none
  find_facet facet ((f, value) ∷ fs) = if f == facet then some value else find_facet facet fs

  abbrev pub facets_of : Option FacetedDirectory → List (Buckle × DirectoryRef)
  facets_of none = []
  facets_of (some d) = d.facets

  abbrev pub empty_directory : Directory
  empty_directory = record { entries = [] }

  unfoldable pub open_loop : ℕ → FacetedRef → Buckle → Option FacetedDirectory → Action DirectoryRef
  open_loop zero r facet mfaceted_dir = forever
  open_loop (suc n) r facet mfaceted_dir =
      let again = open_loop n r facet in
      return_if (find_facet facet (facets_of mfaceted_dir)) (do
        new_dir ←
            set_new_id (Kind.labeled Item.directory)
              (record { label = facet; contents = empty_directory })
        res ←
            cas r mfaceted_dir (record { facets = facets_of mfaceted_dir ++ (facet, new_dir) ∷ [] })
        elim res [ swapped ↦ pure new_dir | conflict d ↦ again d ])

  -- `ObjectRef<FacetedDirectory>::open`.
  unfoldable pub open_facet : FacetedRef → Buckle → Action DirectoryRef
  open_facet r facet = do mfaceted_dir ← get r; with_rounds (λ n. open_loop n r facet mfaceted_dir)

  unfoldable pub readable_facets :
      Buckle → List (Buckle × DirectoryRef) → Dict Buckle DirectoryRef → Dict Buckle DirectoryRef
  unfolding Dict.insert
  readable_facets clearance [] found = found
  readable_facets clearance ((label, entry) ∷ fs) found =
      readable_facets clearance fs
        (if can_flow_to label clearance then Dict.insert label entry found else found)

  -- `ObjectRef<FacetedDirectory>::list`.
  unfoldable pub list_facets : FacetedRef → Buckle → Action (Dict Buckle DirectoryRef)
  list_facets r clearance = do
    raise_label clearance
    d ← get r
    faceted ← unwrap d
    pure (readable_facets clearance faceted.facets [])

  -- `ObjectRef<Labeled<Service>>::to_invokable`.
  unfoldable pub service_to_invokable : ServiceRef → Action Service
  service_to_invokable r = do service ← get_labeled r; unlabel service

  unfoldable pub check_delegation : Component → Action (Unit {0})
  check_delegation granted =
      ensure (λ w. implies w.privilege granted)
        (FsError.privilege_error PrivilegeError.cannot_delegate)

  -- `ObjectRef<Labeled<Service>>::replace`.
  unfoldable pub service_replace : ServiceRef → Service → Action (Unit {0})
  service_replace r new_service = do
    check_delegation new_service.privilege
    service ← get_labeled r
    service' ← write service new_service
    set r service'

  -- The loop of `to_invokable`, on the rounds that are allowed. A round ends the loop at a direct
  -- gate, and otherwise goes on with the gate that the redirect gate names.
  unfoldable pub resolve_loop : ℕ → Gate → Component → Component → Component → Action DirectGate
  resolve_loop zero cur privilege clearance declassify = forever
  resolve_loop (suc n) (direct g) privilege clearance declassify = pure (record {
    privilege = privilege & g.privilege;
    invoker_integrity_clearance = clearance & g.invoker_integrity_clearance;
    declassify = declassify;
    function = g.function;
  })
  resolve_loop (suc n) (redirect g) privilege clearance declassify =
      let again = resolve_loop n in
      do
        next ← get_labeled g.gate
        cur ← unlabel next
        again cur (privilege & g.privilege) (clearance & g.invoker_integrity_clearance)
            (declassify & g.declassify)

  -- `ObjectRef<Labeled<Gate>>::to_invokable`, with at most `rounds` rounds of its loop.
  unfoldable pub gate_to_invokable : ℕ → GateRef → Action DirectGate
  gate_to_invokable rounds r = do
    gate ← get_labeled r
    cur ← unlabel gate
    resolve_loop rounds cur dc_true dc_true dc_true

  unfoldable pub gate_privilege : Gate → Component
  gate_privilege (direct d) = d.privilege
  gate_privilege (redirect r) = r.privilege

  -- `ObjectRef<Labeled<Gate>>::replace`.
  unfoldable pub gate_replace : GateRef → Gate → Action (Unit {0})
  unfolding gate_privilege
  gate_replace r new_gate = do
    check_delegation (gate_privilege new_gate)
    gate ← get_labeled r
    gate' ← write gate new_gate
    set r gate'

  -- `ObjectRef<Labeled<DirectGate>>::to_invokable`.
  unfoldable pub direct_gate_to_invokable :
      ObjectRef (Kind.labeled Item.direct_gate) → Action DirectGate
  direct_gate_to_invokable r = do gate ← get_labeled r; unlabel gate

  -- `ObjectRef<Labeled<Blob>>::read`.
  unfoldable pub read_blob_ref : BlobRef → Action Blob
  read_blob_ref r = do blob ← get_labeled r; unlabel blob

  -- `ObjectRef<Labeled<Blob>>::replace`.
  unfoldable pub blob_replace : BlobRef → Blob → Action (Unit {0})
  blob_replace r new_blob = do blob ← get_labeled r; blob' ← write blob new_blob; set r blob'
