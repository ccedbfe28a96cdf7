-- ===== src/Syscall/Outcomes.antt =====
-- What the system calls on entries answer while no other thread writes:
-- snapfaas/src/syscall_server.rs.
use faasten.Base.{
  ℕ, String, ◌≡◌, refl, Bool, true, false, ◌&&◌, Option, none, some, ◌∙◌, is_some, number_eq,
  name_eq, Bool-cases, inl, inr,
}
use faasten.Base.Dict
use faasten.Base.Dict.{Dict, get-insert_self}
use faasten.Labels.{Labels}
use faasten.Fs.Types.{DirEntry, DirectoryRef, Labeled, Directory}
use faasten.Fs.World.{Serde, World, Outcome, ok, Action}
use faasten.Fs.Object.{link, unlink}
use faasten.Fs.Object.Directory.{alone, Has, tainted, may_write, link_lem, unlink_lem, list_lem}
use faasten.Syscall.Messages.{OpenEntry}
use faasten.Syscall.Server.{
  Server, Call, next_id, ◌>>=◌, pure, on_fs, try_fs, tried, dent, new_dent,
}
use faasten.Syscall.Dents.{
  dent_open, open_in, open_found, open_entry, opened, not_opened, kind_of, dent_link, link_in,
  dent_unlink, plain_result, or_false,
}

module _ ⦃L : Labels⦄ ⦃S : Serde⦄ where
  -- The server, with no other thread about to write.
  abbrev pub calm : Server → Server
  calm s = record s { world = alone s.world }

  pub dent-at :
      (s : Server) (fd : ℕ) (o : Option DirEntry) → Dict.get fd s.dents ≡ o → dent fd s ≡ (ok o, s)
  unfolding dent
  dent-at s fd o h = rw h refl

  pub on_fs-at :
      {A : Type 0} (m : Action A) (s : Server) (x : Outcome A × World)
      → m s.world ≡ x
      → on_fs m s ≡ (x.0, record s { world = x.1 })
  unfolding on_fs
  on_fs-at m s x h = rw h refl

  try_fs-at :
      {A : Type 0} (m : Action A) (s : Server) (x : Outcome A × World) (o : Option A)
      → m s.world ≡ x
      → tried x.0 ≡ ok o
      → try_fs m s ≡ (ok o, record s { world = x.1 })
  unfolding try_fs
  try_fs-at m s x o h k = rw (h, k) refl

  pub bind-at :
      {A B : Type 0} (m : Call A) (f : A → Call B) (s t : Server) (a : A)
      → m s ≡ (ok a, t)
      → (m >>= f) s ≡ f a t
  unfolding ◌>>=◌
  bind-at m f s t a h = rw h refl

  dent_link-at :
      (s : Server) (dir_fd target_fd : ℕ) (r : DirectoryRef) (name : String) (e : DirEntry)
      (x : Outcome Bool × World) (o : Option Bool)
      → Dict.get dir_fd s.dents ≡ some (DirEntry.directory r)
      → Dict.get target_fd s.dents ≡ some e
      → link r name e s.world ≡ x
      → tried x.0 ≡ ok o
      → dent_link dir_fd name target_fd s
        ≡ (ok (plain_result (is_some o) none none), record s { world = x.1 })
  unfolding dent_link link_in pure
  dent_link-at s dir_fd target_fd r name e x o hr he hx ho =
      bind-at _ _ s s _ (dent-at s dir_fd _ hr)
      ∙ bind-at _ _ s s _ (dent-at s target_fd _ he)
      ∙ bind-at _ _ s _ o (try_fs-at _ s x o hx ho)

  dent_unlink-at :
      (s : Server) (fd : ℕ) (r : DirectoryRef) (name : String) (x : Outcome Bool × World)
      (o : Option Bool)
      → Dict.get fd s.dents ≡ some (DirEntry.directory r)
      → unlink r name s.world ≡ x
      → tried x.0 ≡ ok o
      → dent_unlink fd name s
        ≡ (ok (plain_result (or_false o) (some fd) none), record s { world = x.1 })
  unfolding dent_unlink pure
  dent_unlink-at s fd r name x o hr hx ho =
      bind-at _ _ s s _ (dent-at s fd _ hr) ∙ bind-at _ _ s _ o (try_fs-at _ s x o hx ho)

  -- `dent_link` reports success wherever the thread may write to the directory, also where the
  -- name is taken and the directory stays as it is.
  pub dent_link_lem :
      (s : Server) (dir_fd target_fd : ℕ) (r : DirectoryRef) (d : Labeled Directory) (name : String)
      (e : DirEntry)
      → Dict.get dir_fd s.dents ≡ some (DirEntry.directory r)
      → Dict.get target_fd s.dents ≡ some e
      → Has s.world r d
      → dent_link dir_fd name target_fd (calm s) ≡ (
        ok (plain_result (may_write d.label (tainted d.label s.world)) none none),
        record s { world = (link r name e (alone s.world)).1 },
      )
  dent_link_lem s dir_fd target_fd r d name e hr he h =
      let l = link_lem s.world r d name e h in
      elim (Bool-cases (may_write d.label (tainted d.label s.world))) [
        | inl m ↦ elim (Bool-cases (is_some (Dict.get name d.contents.entries))) [
          | inl t ↦ rw m (
              dent_link-at (calm s) dir_fd target_fd r name e _ (some false) hr he refl
                (rw (l, m, t) refl))
          | inr t ↦ rw m (
              dent_link-at (calm s) dir_fd target_fd r name e _ (some true) hr he refl
                (rw (l, m, t) refl))
        ]
        | inr m ↦
            rw m
              (dent_link-at (calm s) dir_fd target_fd r name e _ none hr he refl (rw (l, m) refl))
      ]

  -- `dent_unlink` reports success exactly where the thread may write to the directory and the name
  -- was there.
  pub dent_unlink_lem :
      (s : Server) (fd : ℕ) (r : DirectoryRef) (d : Labeled Directory) (name : String)
      → Dict.get fd s.dents ≡ some (DirEntry.directory r)
      → Has s.world r d
      → (dent_unlink fd name (calm s)).0
        ≡ ok (
            plain_result
              (may_write d.label (tainted d.label s.world)
                && is_some (Dict.get name d.contents.entries))
              (some fd)
              none)
  dent_unlink_lem s fd r d name hr h =
      let l = unlink_lem s.world r d name h in
      elim (Bool-cases (may_write d.label (tainted d.label s.world))) [
        | inl m ↦ elim (Bool-cases (is_some (Dict.get name d.contents.entries))) [
          | inl t ↦
              rw (m, t, dent_unlink-at (calm s) fd r name _ (some true) hr refl (rw (l, m, t) refl))
                refl
          | inr t ↦
              rw
                (m, t, dent_unlink-at (calm s) fd r name _ (some false) hr refl (rw (l, m, t) refl))
                refl
        ]
        | inr m ↦ rw (m, dent_unlink-at (calm s) fd r name _ none hr refl (rw (l, m) refl)) refl
      ]

  found-at :
      (s : Server) (o : Option DirEntry) (e : DirEntry)
      → o ≡ some e
      → open_found o s ≡ (ok (opened s.max_dent_id (kind_of e)), (new_dent e s).1)
  unfolding open_found open_entry ◌>>=◌ new_dent pure
  found-at s o e h = rw h refl

  -- `dent_open` of a name that stands in a directory gives the next descriptor, which then stands
  -- for the entry; and it raises the current label by that of the directory.
  pub dent_open-found :
      (s : Server) (dir_fd : ℕ) (r : DirectoryRef) (d : Labeled Directory) (name : String)
      (e : DirEntry)
      → Dict.get dir_fd s.dents ≡ some (DirEntry.directory r)
      → Has s.world r d
      → Dict.get name d.contents.entries ≡ some e
      → (dent_open dir_fd (OpenEntry.name name) (calm s) ≡ (
        ok (opened s.max_dent_id (kind_of e)),
        record s {
          world = tainted d.label (alone s.world);
          dents = Dict.insert s.max_dent_id e s.dents;
          max_dent_id = next_id s.max_dent_id;
        },
      ))
        × (Dict.get s.max_dent_id (Dict.insert s.max_dent_id e s.dents) ≡ some e)
  unfolding dent_open open_in new_dent
  dent_open-found s dir_fd r d name e hr h he = (
    bind-at _ _ (calm s) (calm s) _ (dent-at (calm s) dir_fd _ hr)
        ∙ bind-at _ _ (calm s) _ _ (on_fs-at _ (calm s) _ (list_lem s.world r d h))
        ∙ found-at _ (Dict.get name d.contents.entries) e he,
    get-insert_self s.max_dent_id e s.dents,
  )

  -- A name that is not there opens nothing, and no descriptor is given out; the label is raised all
  -- the same.
  pub dent_open-missing :
      (s : Server) (dir_fd : ℕ) (r : DirectoryRef) (d : Labeled Directory) (name : String)
      → Dict.get dir_fd s.dents ≡ some (DirEntry.directory r)
      → Has s.world r d
      → Dict.get name d.contents.entries ≡ none
      → dent_open dir_fd (OpenEntry.name name) (calm s)
        ≡ (ok not_opened, record s { world = tainted d.label (alone s.world) })
  unfolding dent_open open_in open_found pure
  dent_open-missing s dir_fd r d name hr h he =
      bind-at _ _ (calm s) (calm s) _ (dent-at (calm s) dir_fd _ hr)
      ∙ bind-at _ _ (calm s) _ _ (on_fs-at _ (calm s) _ (list_lem s.world r d h))
      ∙ rw he refl
