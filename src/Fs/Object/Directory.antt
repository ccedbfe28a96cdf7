-- ===== src/Fs/Object/Directory.antt =====
-- What `link`, `unlink` and `list` do to a directory while no other thread writes.
use faasten.Base.{
  String, ◌≡◌, Bool, true, false, none, some, [], arith, is_some, if◌then◌else◌, ◌==◌, test_refl,
  Bool-cases, inl, inr, name_eq,
}
use faasten.Base.Dict
use faasten.Base.Dict.{Dict}
use faasten.Labels.{Labels, Buckle, lub, can_flow_to_with_privilege}
use faasten.Fs.Errors.{FsError, LabelError}
use faasten.Fs.Types.{Item, Kind, Stored, ObjectRef, DirectoryRef, Labeled, Directory, DirEntry}
use faasten.Fs.World.{
  Serde, ok, err, World, swapped, ◌>>=◌, settle, write_at, write_all, backing_get, backing_cas,
}
use faasten.Fs.Object.Core.{get, cas, unlabel, modify, get_labeled}
use faasten.Fs.Object.Contents.{
  list, insert_entry, link_loop, link, remove_entry, unlink_loop, unlink,
}

module _ ⦃L : Labels⦄ ⦃S : Serde⦄ where
  -- The same world, with no other thread about to write.
  abbrev pub alone : World → World
  alone w = record w { others = [] }

  -- The object is stored under the reference, as the program encodes it.
  abbrev pub Has : {k : Kind} → World → ObjectRef k → Stored k → Type 0
  Has {k} w r v = w.store r.uid ≡ some (S.to_vec k v)

  pub get-Has :
      {k : Kind} (w : World) (r : ObjectRef k) (v : Stored k)
      → Has w r v
      → get r (alone w) ≡ (ok (some v), alone w)
  unfolding get ◌>>=◌ backing_get settle write_all
  get-Has {k} w r v h = rw (h, S.from_slice-to_vec k v)

  pub get_labeled-Has :
      {i : Item} (w : World) (r : ObjectRef (Kind.labeled i)) (v : Stored (Kind.labeled i))
      → Has w r v
      → get_labeled r (alone w) ≡ (ok v, alone w)
  unfolding get_labeled ◌>>=◌
  get_labeled-Has w r v h = rw (get-Has w r v h)

  pub cas-Has :
      {k : Kind} (w : World) (r : ObjectRef k) (v v' : Stored k)
      → Has w r v
      → cas r (some v) v' (alone w)
        ≡ (ok swapped, record (alone w) { store = write_at r.uid (some (S.to_vec k v')) w.store })
  unfolding cas ◌>>=◌ backing_cas settle write_all
  cas-Has {k} w r v v' h = rw (h, test_refl ⦃e = S.bytes_eq⦄ (S.to_vec k v))

  -- The world after a read of an object with the label.
  abbrev pub tainted : Buckle → World → World
  tainted l w = record w { label = lub l w.label }

  abbrev pub may_write : Buckle → World → Bool
  may_write l w = can_flow_to_with_privilege w.label l w.privilege

  abbrev pub cannot_write : FsError
  cannot_write = FsError.label_error LabelError.cannot_write

  pub modify_lem :
      {T R : Type 0} (d : Labeled T) (f : T → R × T) (w : World)
      → modify d f w ≡ (
        if may_write d.label (tainted d.label w)
            then ok ((f d.contents).0, record d { contents = (f d.contents).1 })
            else err cannot_write,
        tainted d.label w,
      )
  unfolding modify ◌>>=◌
  modify_lem d f w = ground arith

  -- The directory with its entries changed.
  abbrev pub with_entries : Labeled Directory → Dict String DirEntry → Labeled Directory
  with_entries d es = record d { contents = record { entries = es } }

  abbrev pub stored_directory : World → DirectoryRef → Labeled Directory → World
  stored_directory w r d = record w {
    store = write_at r.uid (some (S.to_vec (Kind.labeled Item.directory) d)) w.store;
  }

  -- `link` taints the thread with the directory's label. Then it fails with `CannotWrite` where
  -- that label is not one the thread may write to; it answers false and writes nothing where the
  -- name is taken; and else it stores the directory with the entry added, and answers true.
  pub link_lem :
      (w : World) (r : DirectoryRef) (d : Labeled Directory) (name : String) (e : DirEntry)
      → Has w r d
      → link r name e (alone w) ≡ (
          if may_write d.label (tainted d.label w)
          then (if is_some (Dict.get name d.contents.entries)
              then (ok false, tainted d.label (alone w))
              else (
                ok true,
                stored_directory
                    (tainted d.label (alone w))
                    r
                    (with_entries d (Dict.insert_sorted name e d.contents.entries)),
              ))
          else (err cannot_write, tainted d.label (alone w)))
  unfolding link link_loop ◌>>=◌ insert_entry
  link_lem w r d name e h =
      rw (get_labeled-Has w r d h, modify_lem d (insert_entry name e) (alone w))
        (elim (Bool-cases (may_write d.label (tainted d.label w))) [
          | inr denied ↦ rw denied
          | inl allowed ↦ elim (Bool-cases (is_some (Dict.get name d.contents.entries))) [
            | inl taken ↦ rw (allowed, taken)
            | inr free ↦
                rw (allowed, free)
                  (rw (
                    cas-Has (tainted d.label w) r d
                      (with_entries d (Dict.insert_sorted name e d.contents.entries)) h))
          ]
        ])

  -- `unlink` likewise: it answers false and writes nothing where the name is free, and else stores
  -- the directory without the entry, and answers true.
  pub unlink_lem :
      (w : World) (r : DirectoryRef) (d : Labeled Directory) (name : String)
      → Has w r d
      → unlink r name (alone w) ≡ (
          if may_write d.label (tainted d.label w)
          then (if is_some (Dict.get name d.contents.entries)
              then (
                ok true,
                stored_directory
                    (tainted d.label (alone w))
                    r
                    (with_entries d (Dict.remove name d.contents.entries)),
              )
              else (ok false, tainted d.label (alone w)))
          else (err cannot_write, tainted d.label (alone w)))
  unfolding unlink unlink_loop ◌>>=◌ remove_entry
  unlink_lem w r d name h =
      rw (get_labeled-Has w r d h, modify_lem d (remove_entry name) (alone w))
        (elim (Bool-cases (may_write d.label (tainted d.label w))) [
          | inr denied ↦ rw denied
          | inl allowed ↦ elim (Bool-cases (is_some (Dict.get name d.contents.entries))) [
            | inl taken ↦
                rw (allowed, taken)
                  (rw (
                    cas-Has (tainted d.label w) r d
                      (with_entries d (Dict.remove name d.contents.entries)) h))
            | inr free ↦ rw (allowed, free)
          ]
        ])

  pub list_lem :
      (w : World) (r : DirectoryRef) (d : Labeled Directory)
      → Has w r d
      → list r (alone w) ≡ (ok d.contents.entries, tainted d.label (alone w))
  unfolding list unlabel ◌>>=◌
  list_lem w r d h = rw (get_labeled-Has w r d h)

  -- What is stored by `stored_directory` is found there.
  pub stored-Has :
      (w : World) (r : DirectoryRef) (d : Labeled Directory) → Has (stored_directory w r d) r d
  unfolding write_at
  stored-Has w r d = rw (test_refl r.uid)

  -- Where `link` answers true, a later `list` shows the entry under its name and every other
  -- name as before.
  pub list-link :
      (w : World) (r : DirectoryRef) (d : Labeled Directory) (name : String) (e : DirEntry)
      → Has w r d
      → may_write d.label (tainted d.label w) ≡ true
      → Dict.get name d.contents.entries ≡ none
      → (entries : Dict String DirEntry) × ((link r name e (alone w)).0 ≡ ok true)
        × ((list r (link r name e (alone w)).1).0 ≡ ok entries)
        × ((j : String)
            → Dict.get j entries ≡ (if name == j then some e else Dict.get j d.contents.entries))
  list-link w r d name e h allowed free = (
    Dict.insert_sorted name e d.contents.entries,
    rw (link_lem w r d name e h, allowed, free),
    rw (link_lem w r d name e h, allowed, free)
        (rw (
          list_lem
            (stored_directory (tainted d.label w) r
              (with_entries d (Dict.insert_sorted name e d.contents.entries)))
            r (with_entries d (Dict.insert_sorted name e d.contents.entries))
            (stored-Has (tainted d.label w) r
              (with_entries d (Dict.insert_sorted name e d.contents.entries))))),
    λ j. Dict.get-insert_sorted name j e d.contents.entries,
  )

  -- A second taint with the same label leaves a label that may write where the first one may.
  tainted_twice :
      (w : World) (l : Buckle)
      → may_write l (tainted l w) ≡ true
      → may_write l (tainted l (tainted l w)) ≡ true
  tainted_twice w l h =
      L.flows_with_weaken (lub l (lub l w.label)) (lub l w.label) l w.privilege
        (L.join_least l (lub l w.label) (lub l w.label) (L.join_left l w.label)
          (L.flows_refl (lub l w.label)))
        h

  -- `link` of a free name and then `unlink` of it: both answer true, and `list` shows under every
  -- name what it showed before.
  pub unlink-link :
      (w : World) (r : DirectoryRef) (d : Labeled Directory) (name : String) (e : DirEntry)
      → Has w r d
      → may_write d.label (tainted d.label w) ≡ true
      → Dict.get name d.contents.entries ≡ none
      → let linked = link r name e (alone w) in
        let unlinked = unlink r name linked.1 in
        (linked.0 ≡ ok true)
        × (unlinked.0 ≡ ok true)
        × ((entries : Dict String DirEntry) × ((list r unlinked.1).0 ≡ ok entries)
            × ((j : String) → Dict.get j entries ≡ Dict.get j d.contents.entries))
  unlink-link w r d name e h allowed free = (
    rw (link_lem w r d name e h, allowed, free),
    rw (link_lem w r d name e h, allowed, free)
        (rw (
          unlink_lem w₁ r d₁ name (stored-Has (tainted d.label w) r d₁),
          tainted_twice w d.label allowed,
          present,
        )),
    (
      Dict.remove name d₁.contents.entries,
      rw (link_lem w r d name e h, allowed, free)
          (rw
            (
              unlink_lem w₁ r d₁ name (stored-Has (tainted d.label w) r d₁),
              tainted_twice w d.label allowed,
              present,
            )
            (rw (
              list_lem (stored_directory (tainted d.label w₁) r d₂) r d₂
                (stored-Has (tainted d.label w₁) r d₂)))),
      same,
    ),
  )
    where
      d₁ : Labeled Directory
      d₁ = with_entries d (Dict.insert_sorted name e d.contents.entries)

      d₂ : Labeled Directory
      d₂ = with_entries d (Dict.remove name d₁.contents.entries)

      w₁ : World
      w₁ = stored_directory (tainted d.label w) r d₁

      present : Dict.get name d₁.contents.entries ≡ some e
      present = rw (Dict.get-insert_sorted name name e d.contents.entries, test_refl name)

      same :
          (j : String)
          → Dict.get j (Dict.remove name d₁.contents.entries) ≡ Dict.get j d.contents.entries
      same j =
          rw
            (
              Dict.get-remove name j d₁.contents.entries,
              Dict.get-insert_sorted name j e d.contents.entries,
            )
            (ground (arith, free, name_eq.test_iff name j))
