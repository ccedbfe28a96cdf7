-- ===== src/Syscall/Contents.antt =====
-- What is written to a blob is what is read from it: `blob_create`, `blob_write`, `blob_finalize`
-- and `blob_read` of snapfaas/src/syscall_server.rs on the store of snapfaas/src/blobstore/mod.rs.
use Prim.Native.String.{len, slice}
use faasten.Base.{ℕ, ◌+◌, ◌≡◌, refl, true, none, some, [], ◌++◌, length, ◌==◌, number_eq, name_eq}
use faasten.Base.Dict
use faasten.Base.Dict.{Dict, get-insert_self}
use faasten.Labels.{Labels}
use faasten.Fs.Types.{File}
use faasten.Fs.World.{Serde, ok}
use faasten.Syscall.Messages.{BlobResult}
use faasten.Syscall.Server.{
  Digest, Server, Call, NewBlob, OpenBlob, take, drop, ◌>>=◌, ◌>>◌, pure, access, store_create,
  store_save, split_name, persist, blob_take, read_at, open_blob,
}
use faasten.Syscall.Blobs.{
  blob_create, blob_write, blob_finalize, blob_read, begin_blob, unfinished, update_blob,
  take_unfinished, put_blob, blob_done,
}

module _ ⦃L : Labels⦄ ⦃S : Serde⦄ ⦃D : Digest⦄ where
  -- The server, where no access of a file will fail or be cut short.
  abbrev pub smooth : Server → Server
  smooth s = record s { io = [] }

  create_lem :
      (s : Server)
      → blob_create (smooth s) ≡ (
        ok (blob_done s.max_blob_id 0 none),
        (begin_blob (record { written = []; len = 0 }) (smooth s)).1,
      )
  unfolding blob_create store_create ◌>>=◌ access begin_blob pure
  create_lem s = refl

  write_lem :
      (s : Server) (fd : ℕ) (b : NewBlob) (bytes : File)
      → Dict.get fd s.create_blobs ≡ some b
      → blob_write fd bytes (smooth s) ≡ (
        ok (blob_done fd (length bytes) none),
        record (smooth s) {
          create_blobs =
              Dict.insert fd
                (record { written = b.written ++ bytes; len = b.len + length bytes })
                s.create_blobs;
        },
      )
  unfolding blob_write unfinished update_blob ◌>>=◌ access blob_take pure
  write_lem s fd b bytes k = rw k refl

  finalize_lem :
      (s : Server) (fd : ℕ) (b : NewBlob)
      → Dict.get fd s.create_blobs ≡ some b
      → (len (slice (D.hash b.written) 0 2) == 2) ≡ true
      → blob_finalize fd (smooth s) ≡ (
        ok (blob_done fd b.len none),
        record (smooth s) {
          blobs = Dict.insert fd (record { name = D.hash b.written; bytes = b.written }) s.blobs;
          create_blobs = Dict.remove fd s.create_blobs;
          blobstore = Dict.insert (D.hash b.written) b.written s.blobstore;
        },
      )
  unfolding blob_finalize take_unfinished put_blob store_save split_name persist ◌>>=◌ access pure
  finalize_lem s fd b k e = rw (k, e) refl

  read_lem :
      (s : Server) (fd offset amount : ℕ) (b : OpenBlob)
      → Dict.get fd s.blobs ≡ some b
      → let got : File = take amount (drop offset b.bytes) in
        blob_read fd offset amount (smooth s)
        ≡ (ok (blob_done fd (length got) (some got)), smooth s)
  unfolding blob_read open_blob read_at ◌>>=◌ access pure
  read_lem s fd offset amount b k = rw k refl

  -- The four system calls, one after the other, on the descriptor that the first one gives.
  unfoldable pub store_and_read : File → ℕ → ℕ → Call BlobResult
  store_and_read bytes offset amount = do
    created ← blob_create
    blob_write created.fd bytes
    blob_finalize created.fd
    blob_read created.fd offset amount

  -- Where no access of a file fails, bytes that are written to a new blob are read back from it
  -- once it is finalized, from the offset on and as many as were asked for; and the blob store
  -- then has them under their digest.
  pub store_and_read_lem :
      (s : Server) (bytes : File) (offset amount : ℕ)
      → (len (slice (D.hash bytes) 0 2) == 2) ≡ true
      → let got : File = take amount (drop offset bytes) in
        ((store_and_read bytes offset amount (smooth s)).0
          ≡ ok (blob_done s.max_blob_id (length got) (some got)))
        × (Dict.get (D.hash bytes) (store_and_read bytes offset amount (smooth s)).1.blobstore
            ≡ some bytes)
  unfolding store_and_read ◌>>=◌ begin_blob
  store_and_read_lem s bytes offset amount e =
      let b0 : NewBlob = record { written = []; len = 0 } in
      let b1 : NewBlob = record { written = bytes; len = 0 + length bytes } in
      let s1 : Server = (begin_blob b0 (smooth s)).1 in
      let s2 : Server = record s1 { create_blobs = Dict.insert s.max_blob_id b1 s1.create_blobs } in
      let fd : ℕ = s.max_blob_id in
      let s3 : Server = record s2 {
        blobs = Dict.insert fd (record { name = D.hash bytes; bytes = bytes }) s2.blobs;
        create_blobs = Dict.remove fd s2.create_blobs;
        blobstore = Dict.insert (D.hash bytes) bytes s2.blobstore;
      } in
      rw
        (
          create_lem s,
          write_lem s1 fd b0 bytes (get-insert_self fd b0 s.create_blobs),
          finalize_lem s2 fd b1 (get-insert_self fd b1 s1.create_blobs) e,
          read_lem s3 fd offset amount _ (get-insert_self fd _ s2.blobs),
        )
        (refl, get-insert_self (D.hash bytes) bytes s.blobstore)
