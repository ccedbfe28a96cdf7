-- ===== src/Fs/Object/Files.antt =====
-- What a read and a write of a labelled object do while no other thread writes.
use faasten.Base.{ℕ, ◌≡◌, true, some, [], if◌then◌else◌, Bool-cases, inl, inr, number_eq}
use faasten.Labels.{Labels, can_flow_to, implies}
use faasten.Fs.Errors.{FsError, PrivilegeError}
use faasten.Fs.Types.{
  Item, Kind, Payload, FileRef, ServiceRef, GateRef, Labeled, File, Service, Gate,
}
use faasten.Fs.World.{Serde, ok, err, World, ◌>>=◌, settle, write_at, write_all, backing_put}
use faasten.Fs.Object.Core.{set, write, check_flow, unlabel}
use faasten.Fs.Object.Contents.{
  read_file_ref, write_file_ref, check_delegation, service_replace, gate_privilege, gate_replace,
}
use faasten.Fs.Object.Directory.{alone, Has, tainted, may_write, cannot_write, get_labeled-Has}

module _ ⦃L : Labels⦄ ⦃S : Serde⦄ where
  -- The world with new contents stored for the object, under its label.
  abbrev pub rewritten : (i : Item) → World → ℕ → Labeled (Payload i) → Payload i → World
  rewritten i w u l v = record w {
    store = write_at u (some (S.to_vec (Kind.labeled i) (record l { contents = v }))) w.store;
    others = [];
  }

  -- A read of a file returns its contents and raises the current label by the file's label.
  pub read_file_ref_lem :
      (w : World) (r : FileRef) (f : Labeled File)
      → Has w r f
      → (read_file_ref r (alone w) ≡ (ok f.contents, tainted f.label (alone w)))
        × (can_flow_to f.label (read_file_ref r (alone w)).1.label ≡ true)
  unfolding read_file_ref unlabel ◌>>=◌
  read_file_ref_lem w r f h =
      (rw (get_labeled-Has w r f h), rw (get_labeled-Has w r f h) (L.join_left f.label w.label))

  -- A write of a file stores the new contents under the same label where the thread may write to
  -- that label, and is refused and changes nothing where it may not. It does not taint the thread.
  pub write_file_ref_lem :
      (w : World) (r : FileRef) (f : Labeled File) (bytes : File)
      → Has w r f
      → write_file_ref r bytes (alone w) ≡ (
          if may_write f.label w
          then (ok tt, rewritten Item.file w r.uid f bytes)
          else (err cannot_write, alone w))
  unfolding write_file_ref write check_flow ◌>>=◌ set backing_put settle write_all
  write_file_ref_lem w r f bytes h =
      rw (get_labeled-Has w r f h)
        (elim (Bool-cases (may_write f.label w)) [ inl p ↦ rw p | inr p ↦ rw p ])

  -- A service is replaced only where the privilege at hand implies the new service's privilege and
  -- the thread may write to the service's label; else the call fails and changes nothing.
  pub service_replace_lem :
      (w : World) (r : ServiceRef) (s : Labeled Service) (new : Service)
      → Has w r s
      → service_replace r new (alone w) ≡ (
          if implies w.privilege new.privilege
          then (if may_write s.label w
              then (ok tt, rewritten Item.service w r.uid s new)
              else (err cannot_write, alone w))
          else (err (FsError.privilege_error PrivilegeError.cannot_delegate), alone w))
  unfolding service_replace check_delegation write check_flow ◌>>=◌ set backing_put settle write_all
  service_replace_lem w r s new h = elim (Bool-cases (implies w.privilege new.privilege)) [
    | inl q ↦ rw q (
        rw (get_labeled-Has w r s h)
          (elim (Bool-cases (may_write s.label w)) [ inl p ↦ rw p | inr p ↦ rw p ]))
    | inr q ↦ rw q
  ]

  -- Likewise a gate: the privilege at hand must imply the new gate's privilege.
  pub gate_replace_lem :
      (w : World) (r : GateRef) (g : Labeled Gate) (new : Gate)
      → Has w r g
      → gate_replace r new (alone w) ≡ (
          if implies w.privilege (gate_privilege new)
          then (if may_write g.label w
              then (ok tt, rewritten Item.gate w r.uid g new)
              else (err cannot_write, alone w))
          else (err (FsError.privilege_error PrivilegeError.cannot_delegate), alone w))
  unfolding gate_replace check_delegation write check_flow ◌>>=◌ set backing_put settle write_all
  gate_replace_lem w r g new h = elim (Bool-cases (implies w.privilege (gate_privilege new))) [
    | inl q ↦ rw q (
        rw (get_labeled-Has w r g h)
          (elim (Bool-cases (may_write g.label w)) [ inl p ↦ rw p | inr p ↦ rw p ]))
    | inr q ↦ rw q
  ]
