-- ===== src/Fs/Calls.antt =====
-- Any sequence of calls of the file system: the methods of `FS` and the helpers of fs/utils.rs as
-- one type of calls. A call that fails leaves what it had done, and the next call goes on from there.
pub mod Rises
use faasten.Base.{ℕ, String, List, [], ◌∷◌}
use faasten.Labels.{Labels, Component, Buckle}
use faasten.Fs.Types.{DirEntry, File, Blob, Service, DirectGate, RedirectGate}
use faasten.Fs.World.{Serde, World, Action, ◌>>=◌, ◌>>◌, pure}
use faasten.Fs.World.Steps.{Policy, Steps, Steps-bind, Steps-pure}
use faasten.Fs.Path.{FilePath}
use faasten.Fs.Ops
use faasten.Fs.Utils
use faasten.Fs.Ops.Steps.{
  Steps-initialize, Steps-list_dir, Steps-rm, Steps-list_faceted, Steps-read_file, Steps-write_file,
  Steps-create_file, Steps-create_blob, Steps-create_directory, Steps-create_faceted_directory,
  Steps-create_direct_gate, Steps-create_redirect_gate, Steps-create_service, Steps-link_path,
  Steps-open_blob, Steps-replace_blob, Steps-create_or_update_file, Steps-create_or_update_blob,
  Steps-create_faceted, Steps-resolve_gate, Steps-read_path,
}

module _ ⦃L : Labels⦄ where
  pub data FsCall : Type 0 where
    initialize : FsCall
    read_path list_dir read_file open_blob : FilePath → FsCall
    rm : FilePath → String → FsCall
    list_faceted : FilePath → Buckle → FsCall
    write_file : FilePath → File → FsCall
    create_file create_directory : Buckle → FsCall
    create_blob : Buckle → Blob → FsCall
    create_faceted_directory : FsCall
    create_direct_gate : Buckle → DirectGate → FsCall
    create_redirect_gate : Buckle → RedirectGate → FsCall
    create_service : Buckle → Service → FsCall
    link : FilePath → String → DirEntry → FsCall
    replace_blob : FilePath → Blob → FsCall
    create_or_update_file : FilePath → String → Buckle → File → FsCall
    create_or_update_blob : FilePath → String → Buckle → Blob → FsCall
    create_faceted : FilePath → String → FsCall
    resolve_gate : ℕ → FilePath → FsCall

module _ ⦃L : Labels⦄ ⦃S : Serde⦄ where
  abbrev done : {A : Type 0} → Action A → Action (Unit {0})
  done m = m >>= λ _. pure tt

  unfoldable pub perform : FsCall → Action (Unit {0})
  perform initialize = done Ops.initialize
  perform (read_path p) = done (Ops.read_path p)
  perform (list_dir p) = done (Ops.list_dir p)
  perform (read_file p) = done (Ops.read_file p)
  perform (open_blob p) = done (Ops.open_blob p)
  perform (rm p name) = done (Ops.rm p name)
  perform (list_faceted p c) = done (Ops.list_faceted p c)
  perform (write_file p bytes) = Ops.write_file p bytes
  perform (create_file l) = done (Ops.create_file l)
  perform (create_directory l) = done (Ops.create_directory l)
  perform (create_blob l b) = done (Ops.create_blob l b)
  perform create_faceted_directory = done Ops.create_faceted_directory
  perform (create_direct_gate l g) = done (Ops.create_direct_gate l g)
  perform (create_redirect_gate l g) = done (Ops.create_redirect_gate l g)
  perform (create_service l s) = done (Ops.create_service l s)
  perform (link p name e) = Ops.link p name e
  perform (replace_blob p b) = Ops.replace_blob p b
  perform (create_or_update_file p name l bytes) = Utils.create_or_update_file p name l bytes
  perform (create_or_update_blob p name l b) = Utils.create_or_update_blob p name l b
  perform (create_faceted p name) = Utils.create_faceted p name
  perform (resolve_gate rounds p) = done (Utils.resolve_gate_with_clearance_check rounds p)

  unfoldable pub run_calls : List FsCall → World → World
  unfolding perform
  run_calls [] w = w
  run_calls (c ∷ cs) w = run_calls cs (perform c w).1

module _ ⦃L : Labels⦄ ⦃S : Serde⦄ {p : Policy} where
  Steps-done : {A : Type 0} (m : Action A) → Steps p m → Steps p (m >>= λ _. pure (tt {0}))
  Steps-done m h = Steps-bind _ _ h λ _. Steps-pure tt

  Steps-perform : (c : FsCall) → Steps p (perform c)
  unfolding perform
  Steps-perform initialize = Steps-done _ Steps-initialize
  Steps-perform (read_path q) = Steps-done _ (Steps-read_path q)
  Steps-perform (list_dir q) = Steps-done _ (Steps-list_dir q)
  Steps-perform (read_file q) = Steps-done _ (Steps-read_file q)
  Steps-perform (open_blob q) = Steps-done _ (Steps-open_blob q)
  Steps-perform (rm q name) = Steps-done _ (Steps-rm q name)
  Steps-perform (list_faceted q c) = Steps-done _ (Steps-list_faceted q c)
  Steps-perform (write_file q bytes) = Steps-write_file q bytes
  Steps-perform (create_file l) = Steps-done _ (Steps-create_file l)
  Steps-perform (create_directory l) = Steps-done _ (Steps-create_directory l)
  Steps-perform (create_blob l b) = Steps-done _ (Steps-create_blob l b)
  Steps-perform create_faceted_directory = Steps-done _ Steps-create_faceted_directory
  Steps-perform (create_direct_gate l g) = Steps-done _ (Steps-create_direct_gate l g)
  Steps-perform (create_redirect_gate l g) = Steps-done _ (Steps-create_redirect_gate l g)
  Steps-perform (create_service l s) = Steps-done _ (Steps-create_service l s)
  Steps-perform (link q name e) = Steps-link_path q name e
  Steps-perform (replace_blob q b) = Steps-replace_blob q b
  Steps-perform (create_or_update_file q name l bytes) = Steps-create_or_update_file q name l bytes
  Steps-perform (create_or_update_blob q name l b) = Steps-create_or_update_blob q name l b
  Steps-perform (create_faceted q name) = Steps-create_faceted q name
  Steps-perform (resolve_gate rounds q) = Steps-done _ (Steps-resolve_gate rounds q)

module _ ⦃L : Labels⦄ ⦃S : Serde⦄ (p : Policy) where
  pub run_calls_keeps : (cs : List FsCall) (w : World) → p.R w (run_calls cs w)
  unfolding run_calls
  run_calls_keeps [] w = p.refl_at w
  run_calls_keeps (c ∷ cs) w =
      p.trans_at w (perform c w).1 _ ((Steps-perform {p = p} c).at w)
        (run_calls_keeps cs (perform c w).1)
