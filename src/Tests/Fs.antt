-- ===== src/Tests/Fs.antt =====
-- The theorems about the file system, at concrete inputs.
use faasten.Base.{
  ◌≡◌, ◌≢◌, refl, true, false, Option, none, some, List, [], ◌∷◌, if◌then◌else◌, ◌==◌, name_eq,
  number_eq,
}
use faasten.Base.Dict
use faasten.Base.Dict.{Dict}
use faasten.Fs.Types.{Item, Kind, DirEntry, root_ref, Labeled, Directory}
use faasten.Fs.World.{World, ok, diverges}
use faasten.Fs.Object.{link, unlink, list, decode, set_new_id, new_ref}
use faasten.Fs.Object.Fresh.{set_new_id-free, first_free}
use faasten.Fs.Object.Directory.{
  alone, tainted, stored_directory, with_entries, link_lem, unlink_lem, unlink-link,
}
use faasten.Fs.Object.Races.{AllCanonical, link_ends, unlink_ends, link_lost}
use faasten.Fs.Path.{root_path, dscrp}
use faasten.Fs.Calls.{FsCall, run_calls}
use faasten.Fs.Calls.Rises.{Rises, run_calls-Rises}
use faasten.Tests.Setup.{number_labels, doc_serde, Doc, of_directory, root_dir, admin}

abbrev doc : DirEntry
doc = DirEntry.file (record { uid = 3 })

abbrev script : List FsCall
script =
    FsCall.create_or_update_file root_path "a" (0, 0) (1 ∷ 2 ∷ [])
    ∷ FsCall.read_file (record { components = dscrp "a" ∷ [] })
    ∷ []

run_calls-Rises_example : Rises admin (run_calls script admin)
run_calls-Rises_example = run_calls-Rises script admin

link_lem_example : link root_ref "a" doc (alone admin) ≡ (
  ok true,
  stored_directory
      (tainted root_dir.label (alone admin))
      root_ref
      (with_entries root_dir (Dict.insert_sorted "a" doc [])),
)
unfolding Dict.get
link_lem_example = link_lem admin root_ref root_dir "a" doc refl

unlink_lem_example :
    unlink root_ref "a" (alone admin) ≡ (ok false, tainted root_dir.label (alone admin))
unfolding Dict.get
unlink_lem_example = unlink_lem admin root_ref root_dir "a" refl

unlink-link_example :
    ((link root_ref "a" doc (alone admin)).0 ≡ ok true)
    × ((unlink root_ref "a" (link root_ref "a" doc (alone admin)).1).0 ≡ ok true)
    × ((entries : Dict _ DirEntry) × ((list root_ref
            (unlink root_ref "a" (link root_ref "a" doc (alone admin)).1).1).0
          ≡ ok entries)
        × ((j : _) → Dict.get j entries ≡ Dict.get j []))
unfolding Dict.get
unlink-link_example = unlink-link admin root_ref root_dir "a" doc refl refl refl

doc-IsCanonical :
    (v : Option Doc) (d : Labeled Directory)
    → decode (Kind.labeled Item.directory) v ≡ some d
    → v ≡ some (of_directory d)
doc-IsCanonical none d q = cc
doc-IsCanonical (some (of_directory v)) d q = cc
doc-IsCanonical (some _) d q = cc

admin-AllCanonical : AllCanonical admin
admin-AllCanonical = record { now = λ k. doc-IsCanonical (admin.store k); later = tt }

link_ends_example : (link root_ref "a" doc admin).0 ≢ diverges
link_ends_example = link_ends root_ref "a" doc admin admin-AllCanonical

unlink_ends_example : (unlink root_ref "a" admin).0 ≢ diverges
unlink_ends_example = unlink_ends root_ref "a" admin admin-AllCanonical

-- Another thread removes the root after the read.
abbrev raced : World
raced = record admin { others = [] ∷ ((0, none) ∷ []) ∷ [] }

link_lost_example :
    ((link root_ref "a" doc raced).0 ≡ ok true) × ((link root_ref "a" doc raced).1.store 0 ≡ none)
unfolding Dict.get
link_lost_example = link_lost root_ref "a" doc root_dir raced refl refl refl refl

set_new_id-free_example :
    (admin.store 5 ≡ none)
    × ((set_new_id (Kind.labeled Item.directory) root_dir (alone admin)).0 ≡ ok (new_ref 5))
    × ((j : _)
        → (set_new_id (Kind.labeled Item.directory) root_dir (alone admin)).1.store j
          ≡ (if 5 == j then some (of_directory root_dir) else admin.store j))
unfolding first_free
set_new_id-free_example =
    set_new_id-free (Kind.labeled Item.directory) root_dir admin 5 (6 ∷ 7 ∷ []) refl
