-- ===== src/Syscall/Plan.antt =====
-- What a system call may do to the server: a plan is a relation between the server before and
-- after, with bounds on how many descriptors of entries and of blobs were given out in between.
-- There is one rule for each way to build an action of the server.
pub mod Handlers
pub mod Edits
pub mod Loop
use faasten.Base.{
  ℕ, zero, suc, ◌+◌, String, Bool, true, false, Option, none, some, List, [], ◌∷◌, if◌then◌else◌,
  ◌==◌, number_eq, name_eq, ◌≡◌, arith,
}
use faasten.Base.Dict
use faasten.Labels.{Labels, Buckle}
use faasten.Fs.Errors.{FsError}
use faasten.Fs.Types.{DirEntry, File}
use faasten.Fs.World.{Serde, Outcome, ok, err, panic, diverges, World, Action}
use faasten.Fs.World.Steps.{Policy, Steps}
use faasten.Fs.Utils.{get_privilege, get_current_label, taint_with_label, declassify_with}
use faasten.Fs.Utils
use faasten.Syscall.Messages.{LabeledInvoke, TaskReturn}
use faasten.Syscall.Server.{
  IoOutcome, OpenBlob, NewBlob, Digest, HttpAnswer, Conn, Server, Call, proceed, next_id, ◌>>=◌,
  pure, throw, panics, unwrap, ok_or, on_fs, try_fs, dent, new_dent, close_dent, open_blob,
  new_blob, close_blob, access, persist, stored_file,
}
use faasten.Syscall.Blobs.{blob_write, blob_finalize, begin_blob}

module _ ⦃L : Labels⦄ ⦃S : Serde⦄ ⦃D : Digest⦄ where
  pub record Plan : Type 1 where
    -- What the operations of the file system keep to.
    pub policy : Policy
    pub R : ℕ → ℕ → Server → Server → Type 0
    pub refl_at : (k j : ℕ) (s : Server) → R k j s s
    pub trans_at :
        (k k' j j' m n : ℕ) (s t u : Server)
        → m ≡ k + k'
        → n ≡ j + j'
        → R k j s t
        → R k' j' t u
        → R m n s u
    pub on_world : (s : Server) (w : World) → policy.R s.world w → R 0 0 s (record s { world = w })
    pub on_label :
        (s : Server) (l : Buckle) → R 0 0 s (record s { world = record s.world { label = l } })
    pub on_io : (s : Server) (io : List IoOutcome) → R 0 0 s (record s { io = io })
    pub on_conn : (s : Server) (c : Conn) → R 0 0 s (record s { sched_conn = some c })
    pub on_http : (s : Server) (h : List HttpAnswer) → R 0 0 s (record s { http = h })
    pub on_persist : (s : Server) (b : File) → R 0 0 s (persist (D.hash b) b s).1
    pub on_new_dent : (s : Server) (d : DirEntry) → R 1 0 s (new_dent d s).1
    pub on_close_dent : (s : Server) (fd : ℕ) → R 0 0 s (close_dent fd s).1
    pub on_new_blob : (s : Server) (b : OpenBlob) → R 0 1 s (new_blob b s).1
    pub on_close_blob : (s : Server) (fd : ℕ) → R 0 0 s (close_blob fd s).1
    pub on_begin_blob : (s : Server) (b : NewBlob) → R 0 1 s (begin_blob b s).1
    pub on_blob_write : (s : Server) (fd : ℕ) (bytes : File) → R 0 0 s (blob_write fd bytes s).1
    pub on_blob_finalize : (s : Server) (fd : ℕ) → R 0 0 s (blob_finalize fd s).1

  pub record Follows (p : Plan) (k j : ℕ) {A : Type 0} (m : Call A) : Type 0 where
    pub at : (s : Server) → p.R k j s (m s).1

module _ ⦃L : Labels⦄ ⦃S : Serde⦄ ⦃D : Digest⦄ {p : Plan} {A : Type 0} where
  pub Follows-pure : (k j : ℕ) (a : A) → Follows p k j (pure a)
  unfolding pure
  Follows-pure k j a = record { at = p.refl_at k j }

  pub Follows-throw : (k j : ℕ) (e : FsError) → Follows p k j (throw {A = A} e)
  unfolding throw
  Follows-throw k j e = record { at = p.refl_at k j }

  pub Follows-panics : (k j : ℕ) → Follows p k j (panics {A = A})
  unfolding panics
  Follows-panics k j = record { at = p.refl_at k j }

  pub Follows-unwrap : (k j : ℕ) (o : Option A) → Follows p k j (unwrap o)
  unfolding unwrap
  Follows-unwrap k j none = record { at = p.refl_at k j }
  Follows-unwrap k j (some a) = record { at = p.refl_at k j }

  pub Follows-ok_or : (k j : ℕ) (e : FsError) (o : Option A) → Follows p k j (ok_or e o)
  unfolding ok_or
  Follows-ok_or k j e none = record { at = p.refl_at k j }
  Follows-ok_or k j e (some a) = record { at = p.refl_at k j }

  pub Follows-on_fs : (m : Action A) → Steps p.policy m → Follows p 0 0 (on_fs m)
  unfolding on_fs
  Follows-on_fs m h = record { at = λ s. p.on_world s _ (h.at s.world) }

  pub Follows-try_fs : (m : Action A) → Steps p.policy m → Follows p 0 0 (try_fs m)
  unfolding try_fs
  Follows-try_fs m h = record { at = λ s. p.on_world s _ (h.at s.world) }

  pub Follows-if :
      {k j : ℕ} (b : Bool) (m n : Call A)
      → Follows p k j m
      → Follows p k j n
      → Follows p k j (if b then m else n)
  Follows-if true m n km kn = km
  Follows-if false m n km kn = kn

module _ ⦃L : Labels⦄ ⦃S : Serde⦄ ⦃D : Digest⦄ (p : Plan) where
  access_keeps :
      (s : Server) (io : List IoOutcome)
      → p.R 0 0 (record s { io = io }) (access (record s { io = io })).1
  unfolding access
  access_keeps s [] = p.refl_at 0 0 _
  access_keeps s (o ∷ rest) = p.on_io (record s { io = o ∷ rest }) rest

module _ ⦃L : Labels⦄ ⦃S : Serde⦄ ⦃D : Digest⦄ {p : Plan} where
  pub Follows-dent : (fd : ℕ) → Follows p 0 0 (dent fd)
  unfolding dent
  Follows-dent fd = record { at = p.refl_at 0 0 }

  pub Follows-open_blob : (fd : ℕ) → Follows p 0 0 (open_blob fd)
  unfolding open_blob
  Follows-open_blob fd = record { at = p.refl_at 0 0 }

  pub Follows-stored_file : (name : String) → Follows p 0 0 (stored_file name)
  unfolding stored_file
  Follows-stored_file name = record { at = p.refl_at 0 0 }

  pub Follows-new_dent : (d : DirEntry) → Follows p 1 0 (new_dent d)
  Follows-new_dent d = record { at = λ s. p.on_new_dent s d }

  pub Follows-close_dent : (fd : ℕ) → Follows p 0 0 (close_dent fd)
  Follows-close_dent fd = record { at = λ s. p.on_close_dent s fd }

  pub Follows-new_blob : (b : OpenBlob) → Follows p 0 1 (new_blob b)
  Follows-new_blob b = record { at = λ s. p.on_new_blob s b }

  pub Follows-close_blob : (fd : ℕ) → Follows p 0 0 (close_blob fd)
  Follows-close_blob fd = record { at = λ s. p.on_close_blob s fd }

  pub Follows-begin_blob : (b : NewBlob) → Follows p 0 1 (begin_blob b)
  Follows-begin_blob b = record { at = λ s. p.on_begin_blob s b }

  pub Follows-persist : (b : File) → Follows p 0 0 (persist (D.hash b) b)
  Follows-persist b = record { at = λ s. p.on_persist s b }

  pub Follows-blob_write : (fd : ℕ) (bytes : File) → Follows p 0 0 (blob_write fd bytes)
  Follows-blob_write fd bytes = record { at = λ s. p.on_blob_write s fd bytes }

  pub Follows-blob_finalize : (fd : ℕ) → Follows p 0 0 (blob_finalize fd)
  Follows-blob_finalize fd = record { at = λ s. p.on_blob_finalize s fd }

  pub Follows-access : Follows p 0 0 access
  Follows-access = record { at = λ s. access_keeps p s s.io }

  pub Follows-get_privilege : Follows p 0 0 (on_fs get_privilege)
  unfolding on_fs get_privilege
  Follows-get_privilege = record { at = λ s. p.refl_at 0 0 s }

  pub Follows-get_current_label : Follows p 0 0 (on_fs get_current_label)
  unfolding on_fs get_current_label
  Follows-get_current_label = record { at = λ s. p.refl_at 0 0 s }

  pub Follows-taint_with_label : (l : Buckle) → Follows p 0 0 (on_fs (taint_with_label l))
  unfolding on_fs taint_with_label
  Follows-taint_with_label l = record { at = λ s. p.on_label s _ }

  pub Follows-declassify_with : (c : _) → Follows p 0 0 (on_fs (declassify_with c))
  unfolding on_fs declassify_with
  Follows-declassify_with c = record { at = λ s. p.on_label s _ }

module _ ⦃L : Labels⦄ ⦃S : Serde⦄ ⦃D : Digest⦄ {p : Plan} {A B : Type 0} where
  proceed_keeps :
      (k j : ℕ) (f : A → Call B)
      → ((a : A) → Follows p k j (f a))
      → (r : Outcome A) (s : Server) → p.R k j s (proceed r f s).1
  proceed_keeps k j f kf (ok a) s = (kf a).at s
  proceed_keeps k j f kf (err e) s = p.refl_at k j s
  proceed_keeps k j f kf panic s = p.refl_at k j s
  proceed_keeps k j f kf diverges s = p.refl_at k j s

  pub Follows-bind :
      (k k' j j' : ℕ) {x y : ℕ} (m : Call A) (f : A → Call B)
      → x ≡ k + k'
      → y ≡ j + j'
      → Follows p k j m
      → ((a : A) → Follows p k' j' (f a))
      → Follows p x y (m >>= f)
  unfolding ◌>>=◌
  Follows-bind k k' j j' {x} {y} m f ex ey km kf = record {
    at = λ s.
        let (r, s') = m s in
        p.trans_at k k' j j' x y s s' _ ex ey (km.at s) (proceed_keeps k' j' f kf r s');
  }

  -- After an action that gives out no descriptor.
  pub Follows-quiet :
      {k j : ℕ} (m : Call A) (f : A → Call B)
      → Follows p 0 0 m
      → ((a : A) → Follows p k j (f a))
      → Follows p k j (m >>= f)
  Follows-quiet {k} {j} m f = Follows-bind 0 k 0 j m f (omega arith) (omega arith)

module _ ⦃L : Labels⦄ ⦃S : Serde⦄ ⦃D : Digest⦄ {p : Plan} {B : Type 0} where
  pub Follows-after_dent :
      {k j : ℕ} (d : DirEntry) (f : ℕ → Call B)
      → ((a : ℕ) → Follows p k j (f a))
      → Follows p (suc k) j (new_dent d >>= f)
  Follows-after_dent {k} {j} d f =
      Follows-bind 1 k 0 j (new_dent d) f (omega arith) (omega arith) (Follows-new_dent d)

  pub Follows-after_blob :
      {k j : ℕ} (b : OpenBlob) (f : ℕ → Call B)
      → ((a : ℕ) → Follows p k j (f a))
      → Follows p k (suc j) (new_blob b >>= f)
  Follows-after_blob {k} {j} b f =
      Follows-bind 0 k 1 j (new_blob b) f (omega arith) (omega arith) (Follows-new_blob b)

  pub Follows-after_begin :
      {k j : ℕ} (b : NewBlob) (f : ℕ → Call B)
      → ((a : ℕ) → Follows p k j (f a))
      → Follows p k (suc j) (begin_blob b >>= f)
  Follows-after_begin {k} {j} b f =
      Follows-bind 0 k 1 j (begin_blob b) f (omega arith) (omega arith) (Follows-begin_blob b)

pub ruleset plan_rules = (
  Follows-pure, Follows-throw, Follows-panics, Follows-unwrap, Follows-ok_or, Follows-if,
  Follows-dent, Follows-open_blob, Follows-stored_file, Follows-new_dent, Follows-close_dent,
  Follows-new_blob, Follows-close_blob, Follows-begin_blob, Follows-persist, Follows-blob_write,
  Follows-blob_finalize, Follows-access, Follows-get_privilege, Follows-get_current_label,
  Follows-taint_with_label, Follows-declassify_with, Follows-after_dent, Follows-after_blob,
  Follows-after_begin, Follows-quiet,
)
