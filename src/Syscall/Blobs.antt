-- ===== src/Syscall/Blobs.antt =====
-- The system calls on blobs: snapfaas/src/syscall_server.rs from `dent_get_blob` to `blob_close`.
use faasten.Base.{ℕ, true, false, Option, none, some, [], length, if◌then◌else◌, number_eq}
use faasten.Base.Dict.{Dict}
use faasten.Base.Dict
use faasten.Labels.{Labels}
use faasten.Fs.Types.{DirEntry, File}
use faasten.Fs.World.{Serde, ok}
use faasten.Fs.Object.{read_blob_ref}
use faasten.Syscall.Messages.{BlobResult}
use faasten.Syscall.Server.{
  IoOutcome, NewBlob, OpenBlob, Digest, Call, next_id, ◌>>=◌, ◌>>◌, pure, unwrap, on_fs, dent,
  open_blob, new_blob, close_blob, access, store_create, store_open, store_save, blob_take, read_at,
}

-- The text of an I/O error is left out of a result.
abbrev pub blob_failed : ℕ → ℕ → BlobResult
blob_failed fd len = record { success = false; fd = fd; len = len; contents = some [] }

abbrev pub no_blob : ℕ → BlobResult
no_blob fd = record { success = false; fd = fd; len = 0; contents = none }

abbrev pub blob_done : ℕ → ℕ → Option File → BlobResult
blob_done fd len contents = record { success = true; fd = fd; len = len; contents = contents }

module _ ⦃L : Labels⦄ ⦃S : Serde⦄ where
  unfoldable pub unfinished : ℕ → Call (Option NewBlob)
  unfinished fd s = (ok (Dict.get fd s.create_blobs), s)

  -- A blob that is being written, under a new descriptor.
  unfoldable pub begin_blob : NewBlob → Call ℕ
  begin_blob b s = (
    ok s.max_blob_id,
    record s {
      create_blobs = Dict.insert s.max_blob_id b s.create_blobs;
      max_blob_id = next_id s.max_blob_id;
    },
  )

  unfoldable pub update_blob : ℕ → NewBlob → Call (Unit {0})
  update_blob fd b s = (ok tt, record s { create_blobs = Dict.insert fd b s.create_blobs })

  unfoldable pub take_unfinished : ℕ → Call (Option NewBlob)
  take_unfinished fd s =
      (ok (Dict.get fd s.create_blobs), record s { create_blobs = Dict.remove fd s.create_blobs })

  -- A finished blob keeps its descriptor.
  unfoldable pub put_blob : ℕ → OpenBlob → Call (Unit {0})
  put_blob fd b s = (ok tt, record s { blobs = Dict.insert fd b s.blobs })

  -- `blob.len()`, the length of the file.
  unfoldable pub blob_len : OpenBlob → Call ℕ
  blob_len b = do o ← access; elim o [ IoOutcome.failed ↦ unwrap none | _ ↦ pure (length b.bytes) ]

  unfoldable pub dent_get_blob : ℕ → Call BlobResult
  dent_get_blob fd = do
    d ← dent fd
    elim d [
      | some (DirEntry.blob r) ↦ do
        name ← on_fs (read_blob_ref r)
        opened ← store_open name
        b ← unwrap opened
        len ← blob_len b
        blobfd ← new_blob b
        pure (blob_done blobfd len none)
      | _ ↦ pure (no_blob 0)
    ]

  unfoldable pub blob_create : Call BlobResult
  blob_create = do
    created ← store_create
    elim created [
      | none ↦ pure (blob_failed 0 0)
      | some b ↦ do blobid ← begin_blob b; pure (blob_done blobid 0 none)
    ]

  unfoldable pub blob_write : ℕ → File → Call BlobResult
  blob_write fd bytes = do
    found ← unfinished fd
    elim found [
      | none ↦ pure (no_blob fd)
      | some b ↦ do
        o ← access
        elim (blob_take b bytes o) [
          | none ↦ pure (blob_failed fd 0)
          | some (n, b') ↦ do update_blob fd b'; pure (blob_done fd n none)
        ]
    ]

  unfoldable pub blob_finalize : ⦃D : Digest⦄ → ℕ → Call BlobResult
  blob_finalize fd = do
    found ← take_unfinished fd
    elim found [
      | none ↦ pure (no_blob fd)
      | some b ↦ do
        saved ← store_save b
        elim saved [
          | none ↦ pure (blob_failed fd b.len)
          | some o ↦ do put_blob fd o; pure (blob_done fd b.len none)
        ]
    ]

  unfoldable pub blob_read : ℕ → ℕ → ℕ → Call BlobResult
  blob_read fd offset amount = do
    found ← open_blob fd
    elim found [
      | none ↦ pure (no_blob fd)
      | some b ↦ do
        got ← read_at b offset amount
        elim got [
          | none ↦ pure (blob_failed fd 0)
          | some bytes ↦ pure (blob_done fd (length bytes) (some bytes))
        ]
    ]

  unfoldable pub blob_close : ℕ → Call BlobResult
  blob_close fd = do
    closed ← close_blob fd
    pure (if closed then blob_done fd 0 none else no_blob fd)
