-- ===== src/Syscall/Dents.antt =====
-- The system calls that open, close, read, list, link and unlink entries, and that list a gate:
-- snapfaas/src/syscall_server.rs from `root` to `dent_unlink`.
use faasten.Base.{
  ℕ, String, Bool, true, false, Option, none, some, List, [], ◌∷◌, number_eq, name_eq, is_some,
}
use faasten.Base.Dict.{Dict}
use faasten.Base.Dict
use faasten.Labels.{Labels, Buckle, parse_buckle}
use faasten.Fs.Types.{DirEntry, File, DirectoryRef, FacetedRef, Gate}
use faasten.Fs.World.{Serde}
use faasten.Fs.Object.{
  list, link, unlink, read_file_ref, open_facet, list_facets, get_labeled, unlabel,
}
use faasten.Syscall.Messages.{
  DentKind, DentResult, DentOpenResult, DentListResult, DentLsFacetedResult, DentLsGateResult,
  GateMessage, OpenEntry,
}
use faasten.Syscall.Server.{
  Call, ◌>>=◌, ◌>>◌, pure, unwrap, on_fs, try_fs, dent, new_dent, close_dent, new_blob, store_open,
}

-- The kind of an entry: `into` of `DirEntry`, and the same match in `dent_list`.
unfoldable pub kind_of : DirEntry → DentKind
kind_of (DirEntry.directory _) = DentKind.dent_directory
kind_of (DirEntry.file _) = DentKind.dent_file
kind_of (DirEntry.faceted_directory _) = DentKind.dent_faceted_directory
kind_of (DirEntry.gate _) = DentKind.dent_gate
kind_of (DirEntry.service _) = DentKind.dent_service
kind_of (DirEntry.blob _) = DentKind.dent_blob

abbrev pub kinds_of : Dict String DirEntry → Dict String DentKind
kinds_of [] = []
kinds_of ((name, d) ∷ rest) = (name, kind_of d) ∷ kinds_of rest

abbrev pub plain_result : Bool → Option ℕ → Option File → DentResult
plain_result success fd contents = record { success = success; fd = fd; contents = contents }

abbrev pub opened : ℕ → DentKind → DentOpenResult
opened fd kind = record { success = true; fd = fd; kind = kind }

abbrev pub not_opened : DentOpenResult
not_opened = record { success = false; fd = 0; kind = DentKind.dent_directory }

module _ ⦃L : Labels⦄ where
  abbrev pub labels_of : Dict Buckle DirectoryRef → List Buckle
  labels_of [] = []
  labels_of ((l, r) ∷ rest) = l ∷ labels_of rest

module _ ⦃L : Labels⦄ ⦃S : Serde⦄ where
  unfoldable pub root : Call DentResult
  root = pure (plain_result true none none)

  unfoldable pub open_entry : DirEntry → Call DentOpenResult
  open_entry d = do fd ← new_dent d; pure (opened fd (kind_of d))

  unfoldable pub open_found : Option DirEntry → Call DentOpenResult
  open_found none = pure not_opened
  open_found (some d) = open_entry d

  unfoldable pub open_label : FacetedRef → Option Buckle → Call DentOpenResult
  open_label base_dir none = pure not_opened
  open_label base_dir (some label) = do
    dir ← on_fs (open_facet base_dir label)
    open_entry (DirEntry.directory dir)

  -- The match on the base and the entry.
  unfoldable pub open_in : Option DirEntry → OpenEntry → Call DentOpenResult
  open_in (some (DirEntry.directory base_dir)) (OpenEntry.name n) = do
    entries ← on_fs (list base_dir)
    open_found (Dict.get n entries)
  open_in (some (DirEntry.faceted_directory base_dir)) (OpenEntry.facet label) =
      open_label base_dir (some label)
  open_in (some (DirEntry.faceted_directory base_dir)) (OpenEntry.name label_name) =
      open_label base_dir (parse_buckle label_name)
  open_in _ _ = pure not_opened

  unfoldable pub dent_open : ℕ → OpenEntry → Call DentOpenResult
  unfolding open_in
  dent_open dir_fd entry = do base ← dent dir_fd; open_in base entry

  -- The result that says whether there was such a descriptor is dropped.
  unfoldable pub dent_close : ℕ → Call (Unit {0})
  dent_close fd = do close_dent fd; pure tt

  unfoldable pub dent_read : ℕ → Call DentResult
  dent_read fd = do
    d ← dent fd
    elim d [
      | some (DirEntry.file file) ↦ do
        bytes ← on_fs (read_file_ref file)
        pure (plain_result true (some fd) (some bytes))
      | _ ↦ pure (plain_result false (some fd) none)
    ]

  unfoldable pub dent_list : ℕ → Call DentListResult
  dent_list fd = do
    d ← dent fd
    elim d [
      | some (DirEntry.directory dir) ↦ do
        entries ← on_fs (list dir)
        pure (record { success = true; entries = kinds_of entries })
      | _ ↦ pure (record { success = true; entries = [] })
    ]

  unfoldable pub dent_list_faceted : ℕ → Buckle → Call DentLsFacetedResult
  dent_list_faceted fd clearance = do
    d ← dent fd
    elim d [
      | some (DirEntry.faceted_directory faceted) ↦ do
        facets ← on_fs (list_facets faceted clearance)
        pure (record { success = true; facets = labels_of facets })
      | _ ↦ pure (record { success = false; facets = [] })
    ]

  unfoldable pub open_image : String → Call ℕ
  open_image name = do found ← store_open name; b ← unwrap found; new_blob b

  unfoldable pub gate_message : Gate → Call GateMessage
  gate_message (Gate.direct dg) = do
    app_image_fd ← open_image dg.function.app_image
    runtime_fd ← open_image dg.function.runtime_image
    kernel_fd ← open_image dg.function.kernel
    pure (
        GateMessage.direct (record {
          privilege = some dg.privilege;
          invoker_integrity_clearance = some dg.invoker_integrity_clearance;
          declassify = some dg.declassify;
          function = some (record {
            memory = dg.function.memory;
            app_image = app_image_fd;
            runtime = runtime_fd;
            kernel = kernel_fd;
          });
        }))
  gate_message (Gate.redirect rd) = pure (
      GateMessage.redirect (record {
        privilege = some rd.privilege;
        invoker_integrity_clearance = some rd.invoker_integrity_clearance;
        declassify = some rd.declassify;
        gate = 0;
      }))

  unfoldable pub dent_ls_gate : ℕ → Call DentLsGateResult
  dent_ls_gate fd = do
    d ← dent fd
    elim d [
      | some (DirEntry.gate gate) ↦ do
        stored ← on_fs (get_labeled gate)
        g ← on_fs (unlabel stored)
        m ← gate_message g
        pure (record { success = true; gate = some m })
      | _ ↦ pure (record { success = false; gate = none })
    ]

  -- The match on the base and the target. Whether `link` answers true or false is not looked at.
  unfoldable pub link_in : Option DirEntry → String → Option DirEntry → Call DentResult
  link_in (some (DirEntry.directory base_dir)) name (some target) = do
    result ← try_fs (link base_dir name target)
    pure (plain_result (is_some result) none none)
  link_in _ _ _ = pure (plain_result false none none)

  unfoldable pub dent_link : ℕ → String → ℕ → Call DentResult
  unfolding link_in
  dent_link dir_fd name target_fd = do
    base ← dent dir_fd
    target ← dent target_fd
    link_in base name target

  abbrev pub or_false : Option Bool → Bool
  or_false none = false
  or_false (some b) = b

  unfoldable pub dent_unlink : ℕ → String → Call DentResult
  dent_unlink fd name = do
    d ← dent fd
    elim d [
      | some (DirEntry.directory base_dir) ↦ do
        result ← try_fs (unlink base_dir name)
        pure (plain_result (or_false result) (some fd) none)
      | _ ↦ pure (plain_result false (some fd) none)
    ]
