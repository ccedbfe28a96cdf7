-- ===== src/Syscall/Plan/Handlers.antt =====
-- Every system call follows any plan, with one descriptor of an entry at most, and three of blobs.
use faasten.Base.{ℕ, String, Option, none, some, name_eq, arith}
use faasten.Labels.{Labels, Buckle, parse_buckle}
use faasten.Fs.Types.{DirEntry, File, FacetedRef, Gate}
use faasten.Fs.World.{Serde}
use faasten.Fs.Object.Steps.{
  Steps-list, Steps-link, Steps-unlink, Steps-read_file_ref, Steps-write_file_ref, Steps-unlabel,
  Steps-list_facets, Steps-read_blob_ref, Steps-blob_replace, Steps-open_facet,
  Steps-gate_to_invokable, Steps-get_labeled, Steps-gate_replace, Steps-service_replace,
  Steps-service_to_invokable,
}
use faasten.Fs.Ops.Steps.{
  Steps-create_file, Steps-create_blob, Steps-create_directory, Steps-create_faceted_directory,
  Steps-create_direct_gate, Steps-create_redirect_gate, Steps-create_service,
}
use faasten.Syscall.Messages.{OpenEntry}
use faasten.Syscall.Server.{
  IoOutcome, OpenBlob, NewBlob, Digest, split_name, store_create, store_open, store_save, write_all,
  read_at,
}
use faasten.Syscall.Blobs
use faasten.Syscall.Dents
use faasten.Syscall.Plan.{
  Plan, Follows, Follows-on_fs, Follows-try_fs, Follows-pure, Follows-throw, Follows-panics,
  Follows-after_dent, Follows-quiet, Follows-bind, Follows-dent, Follows-unwrap, Follows-open_blob,
  Follows-access, Follows-stored_file, Follows-persist, plan_rules,
}

pub ruleset call_rules = (
  Follows-on_fs, Follows-try_fs, Steps-list, Steps-link, Steps-unlink, Steps-read_file_ref,
  Steps-write_file_ref, Steps-unlabel, Steps-list_facets, Steps-read_blob_ref, Steps-blob_replace,
  Steps-open_facet, Steps-gate_to_invokable, Steps-get_labeled, Steps-gate_replace,
  Steps-service_replace, Steps-service_to_invokable, Steps-create_file, Steps-create_blob,
  Steps-create_directory, Steps-create_faceted_directory, Steps-create_direct_gate,
  Steps-create_redirect_gate, Steps-create_service, plan_rules,
)

module _ ⦃L : Labels⦄ ⦃S : Serde⦄ ⦃D : Digest⦄ {p : Plan} where
  Follows-split_name : (name : String) → Follows p 0 0 (split_name name)
  unfolding split_name
  Follows-split_name name = search call_rules

  pub Follows-store_create : Follows p 0 0 store_create
  unfolding store_create
  Follows-store_create =
      Follows-quiet _ _ Follows-access
        (elim [ IoOutcome.failed ↦ Follows-pure 0 0 _ | _ ↦ Follows-pure 0 0 _ ])

  Follows-store_open : (name : String) → Follows p 0 0 (store_open name)
  unfolding store_open
  Follows-store_open name = Follows-quiet _ _ (Follows-split_name name) λ _.
      Follows-quiet _ _ Follows-access (elim [
        | IoOutcome.failed ↦ Follows-quiet _ _ (Follows-stored_file name) λ _. Follows-pure 0 0 _
        | _ ↦
            Follows-quiet _ _ (Follows-stored_file name)
              (elim [ none ↦ Follows-pure 0 0 _ | some b ↦ Follows-pure 0 0 _ ])
      ])

  pub Follows-store_save : (b : NewBlob) → Follows p 0 0 (store_save b)
  unfolding store_save
  Follows-store_save b = Follows-quiet _ _ (Follows-split_name _) λ _.
      Follows-quiet _ _ Follows-access (elim [
        | IoOutcome.failed ↦ Follows-pure 0 0 _
        | _ ↦ Follows-quiet _ _ (Follows-persist b.written) λ _.
            Follows-quiet _ _ Follows-access
              (elim [ IoOutcome.failed ↦ Follows-pure 0 0 _ | _ ↦ Follows-pure 0 0 _ ])
      ])

  pub Follows-write_all : (b : NewBlob) (bytes : File) → Follows p 0 0 (write_all b bytes)
  unfolding write_all
  Follows-write_all b bytes =
      Follows-quiet _ _ Follows-access
        (elim [ IoOutcome.failed ↦ Follows-pure 0 0 _ | _ ↦ Follows-pure 0 0 _ ])

  Follows-read_at : (b : OpenBlob) (offset amount : ℕ) → Follows p 0 0 (read_at b offset amount)
  unfolding read_at
  Follows-read_at b offset amount = Follows-quiet _ _ Follows-access (elim [
    | IoOutcome.failed ↦ Follows-pure 0 0 _
    | IoOutcome.full ↦ Follows-pure 0 0 _
    | IoOutcome.short n ↦ Follows-pure 0 0 _
  ])

  Follows-blob_len : (b : OpenBlob) → Follows p 0 0 (Blobs.blob_len b)
  unfolding Blobs.blob_len
  Follows-blob_len b =
      Follows-quiet _ _ Follows-access
        (elim [ IoOutcome.failed ↦ Follows-unwrap 0 0 none | _ ↦ Follows-pure 0 0 _ ])

  pub Follows-dent_get_blob : (fd : ℕ) → Follows p 0 1 (Blobs.dent_get_blob fd)
  unfolding Blobs.dent_get_blob
  Follows-dent_get_blob fd = Follows-quiet _ _ (Follows-dent fd) (elim [
    | some (DirEntry.blob r) ↦ search (call_rules, Follows-store_open, Follows-blob_len) depth 8
    | _ ↦ Follows-pure 0 1 _
  ])

  pub Follows-blob_create : Follows p 0 1 Blobs.blob_create
  unfolding Blobs.blob_create
  Follows-blob_create =
      Follows-quiet _ _ Follows-store_create
        (elim [ none ↦ Follows-pure 0 1 _ | some b ↦ search call_rules ])

  pub Follows-blob_read : (fd offset amount : ℕ) → Follows p 0 0 (Blobs.blob_read fd offset amount)
  unfolding Blobs.blob_read
  Follows-blob_read fd offset amount = Follows-quiet _ _ (Follows-open_blob fd) (elim [
    | none ↦ Follows-pure 0 0 _
    | some b ↦
        Follows-quiet _ _ (Follows-read_at b offset amount)
          (elim [ none ↦ Follows-pure 0 0 _ | some bytes ↦ Follows-pure 0 0 _ ])
  ])

  pub Follows-blob_close : (fd : ℕ) → Follows p 0 0 (Blobs.blob_close fd)
  unfolding Blobs.blob_close
  Follows-blob_close fd = search call_rules

  Follows-open_entry : (d : DirEntry) → Follows p 1 0 (Dents.open_entry d)
  unfolding Dents.open_entry
  Follows-open_entry d = Follows-after_dent d _ λ fd. Follows-pure 0 0 _

  Follows-open_found : (o : Option DirEntry) → Follows p 1 0 (Dents.open_found o)
  unfolding Dents.open_found
  Follows-open_found none = Follows-pure 1 0 _
  Follows-open_found (some d) = Follows-open_entry d

  Follows-open_label : (r : FacetedRef) (o : Option Buckle) → Follows p 1 0 (Dents.open_label r o)
  unfolding Dents.open_label
  Follows-open_label r none = Follows-pure 1 0 _
  Follows-open_label r (some l) = search (call_rules, Follows-open_entry)

  Follows-open_in :
      (base : Option DirEntry) (entry : OpenEntry) → Follows p 1 0 (Dents.open_in base entry)
  unfolding Dents.open_in
  Follows-open_in (some (DirEntry.directory d)) (OpenEntry.name n) =
      search (call_rules, Follows-open_found)
  Follows-open_in (some (DirEntry.faceted_directory d)) (OpenEntry.facet l) =
      Follows-open_label d (some l)
  Follows-open_in (some (DirEntry.faceted_directory d)) (OpenEntry.name n) =
      Follows-open_label d (parse_buckle n)
  Follows-open_in _ _ = Follows-pure 1 0 _

  pub Follows-dent_open : (fd : ℕ) (e : OpenEntry) → Follows p 1 0 (Dents.dent_open fd e)
  unfolding Dents.dent_open
  Follows-dent_open fd e = search (call_rules, Follows-open_in)

  pub Follows-dent_close : (fd : ℕ) → Follows p 0 0 (Dents.dent_close fd)
  unfolding Dents.dent_close
  Follows-dent_close fd = search call_rules

  pub Follows-dent_read : (fd : ℕ) → Follows p 0 0 (Dents.dent_read fd)
  unfolding Dents.dent_read
  Follows-dent_read fd =
      Follows-quiet _ _ (Follows-dent fd)
        (elim [ some (DirEntry.file r) ↦ search call_rules | _ ↦ Follows-pure 0 0 _ ])

  pub Follows-dent_list : (fd : ℕ) → Follows p 0 0 (Dents.dent_list fd)
  unfolding Dents.dent_list
  Follows-dent_list fd =
      Follows-quiet _ _ (Follows-dent fd)
        (elim [ some (DirEntry.directory r) ↦ search call_rules | _ ↦ Follows-pure 0 0 _ ])

  pub Follows-dent_list_faceted :
      (fd : ℕ) (c : Buckle) → Follows p 0 0 (Dents.dent_list_faceted fd c)
  unfolding Dents.dent_list_faceted
  Follows-dent_list_faceted fd c =
      Follows-quiet _ _ (Follows-dent fd)
        (elim [ some (DirEntry.faceted_directory r) ↦ search call_rules | _ ↦ Follows-pure 0 0 _ ])

  Follows-open_image : (name : String) → Follows p 0 1 (Dents.open_image name)
  unfolding Dents.open_image
  Follows-open_image name = search (call_rules, Follows-store_open)

  Follows-gate_message : (g : Gate) → Follows p 0 3 (Dents.gate_message g)
  unfolding Dents.gate_message
  Follows-gate_message (Gate.direct dg) =
      Follows-bind 0 0 1 2 _ _ (omega arith) (omega arith) (Follows-open_image _) λ _.
        Follows-bind 0 0 1 1 _ _ (omega arith) (omega arith) (Follows-open_image _) λ _.
          Follows-bind 0 0 1 0 _ _ (omega arith) (omega arith) (Follows-open_image _)
            λ _. Follows-pure 0 0 _
  Follows-gate_message (Gate.redirect rd) = Follows-pure 0 3 _

  pub Follows-dent_ls_gate : (fd : ℕ) → Follows p 0 3 (Dents.dent_ls_gate fd)
  unfolding Dents.dent_ls_gate
  Follows-dent_ls_gate fd = Follows-quiet _ _ (Follows-dent fd) (elim [
    | some (DirEntry.gate r) ↦ Follows-quiet _ _ (Follows-on_fs _ (Steps-get_labeled r)) λ stored.
        Follows-quiet _ _ (Follows-on_fs _ (Steps-unlabel stored)) λ g.
          Follows-bind 0 0 3 0 _ _ (omega arith) (omega arith) (Follows-gate_message g)
            λ m. Follows-pure 0 0 _
    | _ ↦ Follows-pure 0 3 _
  ])

  Follows-link_in :
      (base : Option DirEntry) (name : String) (target : Option DirEntry)
      → Follows p 0 0 (Dents.link_in base name target)
  unfolding Dents.link_in
  Follows-link_in (some (DirEntry.directory d)) name (some t) = search call_rules
  Follows-link_in _ _ _ = Follows-pure 0 0 _

  pub Follows-dent_link :
      (dir_fd : ℕ) (name : String) (target_fd : ℕ)
      → Follows p 0 0 (Dents.dent_link dir_fd name target_fd)
  unfolding Dents.dent_link
  Follows-dent_link dir_fd name target_fd = search (call_rules, Follows-link_in)

  pub Follows-dent_unlink : (fd : ℕ) (name : String) → Follows p 0 0 (Dents.dent_unlink fd name)
  unfolding Dents.dent_unlink
  Follows-dent_unlink fd name =
      Follows-quiet _ _ (Follows-dent fd)
        (elim [ some (DirEntry.directory r) ↦ search call_rules | _ ↦ Follows-pure 0 0 _ ])
