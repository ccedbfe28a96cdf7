-- ===== src/Bootstrap.antt =====
-- The installation of kernels, runtimes and the `fsutil` gate: snapfaas/src/fs/bootstrap.rs.
--
-- Parameters: the component of the principal `faasten`, what local files there are and their file
-- names. The configuration is given as it is read.
pub mod Acting
use faasten.Base.{ℕ, String, Bool, Option, none, some, List, [], ◌∷◌, name_eq, number_eq}
use faasten.Base.Dict
use faasten.Base.Dict.{Dict}
use faasten.Labels.{Labels, Buckle, Component, public, dc_true, dc_false, parse_buckle}
use faasten.Fs.Errors.{FsError}
use faasten.Fs.Types.{
  DirEntry, DirectoryRef, File, Blob, Function, Gate, direct, DirectGate, GateRef,
}
use faasten.Fs.World.{Serde, Outcome, ok, err, panic, diverges}
use faasten.Fs.Object.{list, link, unlink, gate_replace}
use faasten.Fs.Path.{FilePath, PathComponent, dscrp, facet, root_path, push_dscrp}
use faasten.Fs.Ops
use faasten.Fs.Utils
use faasten.Fs.Utils.{set_my_privilege, get_ufacet, create_or_update_blob, create_faceted}
use faasten.Syscall.Server.{
  Digest, Call, ◌>>=◌, ◌>>◌, pure, throw, unwrap, on_fs, try_fs, store_create, store_save,
  write_all,
}

pub record Config : Type 0 where
  pub kernel : String
  pub python : String
  pub fsutil : String
  pub other_runtimes : List String

abbrev pub fsutil_memsize : ℕ
fsutil_memsize = 128

module _ ⦃L : Labels⦄ ⦃S : Serde⦄ where
  -- `Buckle::parse("T,faasten").unwrap()`.
  unfoldable pub faasten_label : Call Buckle
  faasten_label = unwrap (parse_buckle "T,faasten")

  -- `FSTN_IMAGE_BASE`.
  abbrev pub image_base : Buckle → FilePath
  image_base label = record { components = dscrp "home" ∷ facet label ∷ [] }

  -- `create_direct_gate(FSUTIL_POLICY, ..).expect(..)`, and its link.
  unfoldable pub link_gate : DirectoryRef → String → Buckle → DirectGate → Call (Unit {0})
  link_gate dir name policy g = do
    created ← try_fs (Ops.create_direct_gate policy g)
    gate ← unwrap created
    on_fs (link dir name gate)
    pure tt

  unfoldable pub put_gate :
      DirectoryRef → String → Buckle → DirectGate → Option DirEntry → Call (Unit {0})
  put_gate dir name policy g (some (DirEntry.gate gate)) = on_fs (gate_replace gate (direct g))
  put_gate dir name policy g (some _) = do on_fs (unlink dir name); link_gate dir name policy g
  put_gate dir name policy g none = link_gate dir name policy g

  abbrev pub fsutil_gate : Function → DirectGate
  fsutil_gate f = record {
    privilege = dc_true;
    invoker_integrity_clearance = dc_true;
    declassify = dc_true;
    function = f;
  }

  unfoldable pub put_fsutil : Buckle → Function → DirEntry → Call (Unit {0})
  put_fsutil label function (DirEntry.directory dir) = do
    entries ← on_fs (list dir)
    put_gate dir "fsutil" label (fsutil_gate function) (Dict.get "fsutil" entries)
  put_fsutil label function _ = throw FsError.bad_path

  unfoldable pub dup_fsutil : Buckle → Component → Component → Call (Unit {0})
  dup_fsutil label privilege clearance = do
    base_facet ← on_fs get_ufacet
    e ← on_fs (Ops.read_path (push_dscrp "fsutil" (image_base label)))
    elim e [
      | DirEntry.gate gate ↦ do
        new_gate ← on_fs (
            Ops.create_redirect_gate public (record {
              privilege = privilege;
              invoker_integrity_clearance = clearance;
              declassify = privilege;
              gate = gate;
            }))
        on_fs (
            Ops.link (record { components = dscrp "home" ∷ facet base_facet ∷ [] }) "fsutil"
              new_gate)
      | _ ↦ throw FsError.not_a_gate
    ]

  abbrev pub warned : Outcome (Unit {0}) → Outcome (Unit {0})
  warned (ok a) = ok a
  warned (err e) = ok tt
  warned panic = panic
  warned diverges = diverges

  -- An error is only logged.
  unfoldable pub or_warn : Call (Unit {0}) → Call (Unit {0})
  or_warn m s = let (r, s') = m s in (warned r, s')

  unfoldable pub register_user_fsutil : Buckle → Component → Component → Call (Unit {0})
  register_user_fsutil label user clearance = do
    on_fs (set_my_privilege user)
    or_warn (dup_fsutil label user clearance)
    on_fs (set_my_privilege dc_true)

  unfoldable pub get_runtime_blob : Buckle → String → Call Blob
  get_runtime_blob label runtime = do
    opened ← try_fs (Ops.open_blob (push_dscrp runtime (image_base label)))
    unwrap opened

  unfoldable pub get_kernel_blob : Buckle → Call Blob
  get_kernel_blob label = do
    opened ← try_fs (Ops.open_blob (push_dscrp "kernel" (image_base label)))
    unwrap opened

  module _ (faasten : Component) where
    unfoldable pub update_fsutil : Call (Unit {0})
    update_fsutil = do on_fs (set_my_privilege faasten); on_fs (set_my_privilege dc_true)

  module _ ⦃D : Digest⦄ (local_file : String → Option File) where
    unfoldable pub localfile2blob : String → Call String
    localfile2blob local_path = do
      bytes ← unwrap (local_file local_path)
      created ← store_create
      blob ← unwrap created
      written ← write_all blob bytes
      blob' ← unwrap written
      saved ← store_save blob'
      b ← unwrap saved
      pure b.name

    -- A blob of a local file under a name in the image directory, with what it is called.
    unfoldable pub install_image : Buckle → String → String → Call String
    install_image label local_path name = do
      blobname ← localfile2blob local_path
      on_fs (create_or_update_blob (image_base label) name label blobname)
      pure blobname

    module _ (file_name : String → Option String) where
      unfoldable pub install_runtimes : Buckle → List String → Call (Unit {0})
      install_runtimes label [] = pure tt
      install_runtimes label (rt ∷ rest) = do
        blobname ← localfile2blob rt
        name ← unwrap (file_name rt)
        put ← try_fs (create_or_update_blob (image_base label) name label blobname)
        unwrap put
        install_runtimes label rest

      -- What is done as `faasten`.
      unfoldable pub install : Buckle → Config → Call (Unit {0})
      install label config = do
        kernel_blob ← install_image label config.kernel "kernel"
        python_blob ← install_image label config.python "python"
        fsutil_blob ← install_image label config.fsutil "fsutil_image"
        e ← on_fs (Ops.read_path (image_base label))
        put_fsutil label
            (record {
              memory = fsutil_memsize;
              app_image = fsutil_blob;
              runtime_image = python_blob;
              kernel = kernel_blob;
            })
            e
        install_runtimes label config.other_runtimes

      unfoldable pub prepare_fs : Component → Config → Call (Unit {0})
      prepare_fs faasten config = do
        label ← faasten_label
        on_fs Ops.initialize
        on_fs (set_my_privilege dc_false)
        try_fs (create_faceted root_path "home")
        on_fs (set_my_privilege faasten)
        install label config
        on_fs (set_my_privilege dc_true)

    unfoldable pub update_python : Component → Buckle → String → Call (Unit {0})
    update_python faasten label local_path = do
      on_fs (set_my_privilege faasten)
      blobname ← localfile2blob local_path
      replaced ← try_fs (Ops.replace_blob (push_dscrp "python" (image_base label)) blobname)
      unwrap replaced
      on_fs (set_my_privilege dc_true)
