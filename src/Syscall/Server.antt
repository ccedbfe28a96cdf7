-- ===== src/Syscall/Server.antt =====
-- The state of `SyscallProcessor` and its environment in snapfaas/src/syscall_server.rs, the blob
-- store of snapfaas/src/blobstore/mod.rs, and the actions that change them.
--
-- What the outside answers is a sequence that the state holds: the operating system to an access of
-- a blob's file, the scheduler and web services to what is sent to them, and the channel.
use Prim.Native.String.{len, slice}
use faasten.Base.{
  ℕ, zero, suc, ◌+◌, ◌%◌, ◌^◌, String, Bool, Option, none, some, List, [], ◌∷◌, ◌++◌, if◌then◌else◌,
  ◌==◌, length, number_eq, name_eq,
}
use faasten.Base.Dict.{Dict}
use faasten.Base.Dict
use faasten.Labels.{Labels}
use faasten.Fs.Errors.{FsError}
use faasten.Fs.Types.{DirEntry, File}
use faasten.Fs.World.{Serde, Outcome, ok, err, panic, diverges, World, Action}
use faasten.Syscall.Messages.{LabeledInvoke, TaskReturn}

-- The outcome of an access of a file: all bytes are written, at most so many are, or it fails.
pub data IoOutcome : Type 0 where
  full failed : IoOutcome
  short : ℕ → IoOutcome

-- An open file of the blob store, which is never written again, with its name.
pub record OpenBlob : Type 0 where
  pub name : String
  pub bytes : File

-- A temporary file. Its digest and its file have taken the same bytes.
pub record NewBlob : Type 0 where
  pub written : File
  pub len : ℕ

-- `Sha256` in hexadecimal digits.
pub record Digest : Type 0 where
  pub hash : File → String

-- What sending a request to a web service comes to: it fails, a header of the service is none and
-- `unwrap` panics, or there is a response, whose body can be read or not.
pub data HttpAnswer : Type 0 where
  send_failed bad_header : HttpAnswer
  answered : Dict String File → Option File → HttpAnswer

abbrev pub take : ℕ → File → File
take zero xs = []
take (suc n) [] = []
take (suc n) (x ∷ xs) = x ∷ take n xs

abbrev pub drop : ℕ → File → File
drop zero xs = xs
drop (suc n) [] = []
drop (suc n) (x ∷ xs) = drop n xs

-- `+= 1` on a `u64`.
abbrev pub next_id : ℕ → ℕ
next_id n = suc n % 2 ^ 64

module _ ⦃L : Labels⦄ ⦃S : Serde⦄ where
  -- The connection to the scheduler: what was sent, whether the next messages can be sent, and what
  -- is read.
  pub record Conn : Type 0 where
    pub sent : List LabeledInvoke
    pub accepts : List Bool
    pub returns : List (Option TaskReturn)

  pub record Server : Type 0 where
    pub world : World
    pub dents : Dict ℕ DirEntry
    pub blobs : Dict ℕ OpenBlob
    pub create_blobs : Dict ℕ NewBlob
    pub max_dent_id : ℕ
    pub max_blob_id : ℕ
    pub blobstore : Dict String File
    pub io : List IoOutcome
    pub sched_conn : Option Conn
    pub http : List HttpAnswer

  abbrev pub Call : Type 0 → Type 0
  Call A = Server → Outcome A × Server

  abbrev pub proceed : {A B : Type 0} → Outcome A → (A → Call B) → Call B
  proceed (ok a) f s = f a s
  proceed (err e) f s = (err e, s)
  proceed panic f s = (panic, s)
  proceed diverges f s = (diverges, s)

  unfoldable pub pure : {A : Type 0} → A → Call A
  pure a s = (ok a, s)

  unfoldable pub throw : {A : Type 0} → FsError → Call A
  throw e s = (err e, s)

  unfoldable pub panics : {A : Type 0} → Call A
  panics s = (panic, s)

  -- `unwrap` and `expect`.
  unfoldable pub unwrap : {A : Type 0} → Option A → Call A
  unwrap none s = (panic, s)
  unwrap (some a) s = (ok a, s)

  unfoldable pub ok_or : {A : Type 0} → FsError → Option A → Call A
  ok_or e none s = (err e, s)
  ok_or e (some a) s = (ok a, s)

  -- An operation of the file system.
  unfoldable pub on_fs : {A : Type 0} → Action A → Call A
  on_fs m s = let (r, w) = m s.world in (r, record s { world = w })

  -- `Result::ok` of an operation of the file system: the error becomes none.
  abbrev pub tried : {A : Type 0} → Outcome A → Outcome (Option A)
  tried (ok a) = ok (some a)
  tried (err e) = ok none
  tried panic = panic
  tried diverges = diverges

  unfoldable pub try_fs : {A : Type 0} → Action A → Call (Option A)
  try_fs m s = let (r, w) = m s.world in (tried r, record s { world = w })

  unfoldable pub dent : ℕ → Call (Option DirEntry)
  dent fd s = (ok (Dict.get fd s.dents), s)

  -- An entry is put under a new descriptor.
  unfoldable pub new_dent : DirEntry → Call ℕ
  new_dent d s = (
    ok s.max_dent_id,
    record s { dents = Dict.insert s.max_dent_id d s.dents; max_dent_id = next_id s.max_dent_id },
  )

  unfoldable pub close_dent : ℕ → Call Bool
  close_dent fd s = (ok (Dict.contains_key fd s.dents), record s { dents = Dict.remove fd s.dents })

  unfoldable pub open_blob : ℕ → Call (Option OpenBlob)
  open_blob fd s = (ok (Dict.get fd s.blobs), s)

  unfoldable pub new_blob : OpenBlob → Call ℕ
  new_blob b s = (
    ok s.max_blob_id,
    record s { blobs = Dict.insert s.max_blob_id b s.blobs; max_blob_id = next_id s.max_blob_id },
  )

  unfoldable pub close_blob : ℕ → Call Bool
  close_blob fd s = (ok (Dict.contains_key fd s.blobs), record s { blobs = Dict.remove fd s.blobs })

  -- The operating system's answer to the next access of a file.
  unfoldable pub access : Call IoOutcome
  access s = elim s.io [ [] ↦ (ok full, s) | o ∷ rest ↦ (ok o, record s { io = rest }) ]

  infixl 10 ◌>>=◌ ◌>>◌
  -- Opening this opens the actions above.
  unfoldable pub ◌>>=◌ : {A B : Type 0} → Call A → (A → Call B) → Call B
  unfolding pure throw panics unwrap ok_or on_fs try_fs dent new_dent close_dent open_blob new_blob
      close_blob access
  ◌>>=◌ m f s = let (r, s') = m s in proceed r f s'

  abbrev pub ◌>>◌ : {A B : Type 0} → Call A → Call B → Call B
  m >> n = m >>= λ _. n

  -- `Blobstore::create`.
  unfoldable pub store_create : Call (Option NewBlob)
  store_create = do
    o ← access
    elim o [ failed ↦ pure none | _ ↦ pure (some (record { written = []; len = 0 })) ]

  -- `name.split_at(2)`, which panics where the name is shorter or a character is cut.
  unfoldable pub split_name : String → Call (Unit {0})
  split_name name = if len (slice name 0 2) == 2 then pure tt else panics

  unfoldable pub stored_file : String → Call (Option File)
  stored_file name s = (ok (Dict.get name s.blobstore), s)

  -- `Blobstore::open`.
  unfoldable pub store_open : String → Call (Option OpenBlob)
  store_open name = do
    split_name name
    o ← access
    found ← stored_file name
    elim o [
      | failed ↦ pure none
      | _ ↦ elim found [
        | none ↦ pure none
        | some b ↦ pure (some (record { name = name; bytes = b }))
      ]
    ]

  unfoldable pub persist : String → File → Call (Unit {0})
  persist name b s = (ok tt, record s { blobstore = Dict.insert name b s.blobstore })

  -- `Blobstore::save`: the file stands under its digest even where its permissions cannot be set.
  unfoldable pub store_save : ⦃D : Digest⦄ → NewBlob → Call (Option OpenBlob)
  store_save ⦃D⦄ b = do
    split_name (D.hash b.written)
    o ← access
    elim o [
      | failed ↦ pure none
      | _ ↦ do
        persist (D.hash b.written) b.written
        permitted ← access
        elim permitted [
          | failed ↦ pure none
          | _ ↦ pure (some (record { name = D.hash b.written; bytes = b.written }))
        ]
    ]

  -- `Write::write` on a new blob, with the number of bytes that were taken.
  unfoldable pub blob_take : NewBlob → File → IoOutcome → Option (ℕ × NewBlob)
  blob_take b bytes failed = none
  blob_take b bytes full =
      some (length bytes, record { written = b.written ++ bytes; len = b.len + length bytes })
  blob_take b bytes (short n) =
      let taken = take n bytes in
      some (length taken, record { written = b.written ++ taken; len = b.len + length taken })

  -- `write_all` on a blob that is new: short writes are repeated until all is written.
  unfoldable pub write_all : NewBlob → File → Call (Option NewBlob)
  write_all b bytes = do
    o ← access
    elim o [
      | failed ↦ pure none
      | _ ↦ pure (some (record { written = b.written ++ bytes; len = b.len + length bytes }))
    ]

  -- `Blob::read_at`: the bytes from the offset on, at most as many as the buffer has.
  unfoldable pub read_at : OpenBlob → ℕ → ℕ → Call (Option File)
  read_at b offset amount = do
    o ← access
    elim o [
      | failed ↦ pure none
      | full ↦ pure (some (take amount (drop offset b.bytes)))
      | short n ↦ pure (some (take n (take amount (drop offset b.bytes))))
    ]
