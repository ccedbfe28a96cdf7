-- ===== src/Syscall/Privilege.antt =====
-- The privilege of the thread under the system calls of a function.
use faasten.Base.{ℕ, ◌≡◌, refl, ◌∙◌, List, arith, number_eq}
use faasten.Labels.{Labels}
use faasten.Fs.Types.{File}
use faasten.Fs.World.{Serde, settle}
use faasten.Fs.World.Steps.{Policy}
use faasten.Syscall.Server.{
  IoOutcome, NewBlob, Digest, Server, new_dent, new_blob, close_dent, close_blob, persist, ◌>>=◌,
  access, split_name, store_save, blob_take,
}
use faasten.Syscall.Blobs.{
  blob_write, blob_finalize, begin_blob, unfinished, update_blob, take_unfinished, put_blob,
}
use faasten.Syscall.Run.{Incoming, serve}
use faasten.Syscall.Plan.{Plan}
use faasten.Syscall.Plan.Loop.{serve_keeps}

module _ ⦃L : Labels⦄ ⦃S : Serde⦄ ⦃D : Digest⦄ where
  -- The parts of the server that a save of a blob leaves alone.
  pub record Same (s t : Server) : Type 0 where
    pub world_same : t.world ≡ s.world
    pub dents_same : t.dents ≡ s.dents
    pub blobs_same : t.blobs ≡ s.blobs
    pub create_blobs_same : t.create_blobs ≡ s.create_blobs
    pub max_dent_id_same : t.max_dent_id ≡ s.max_dent_id
    pub max_blob_id_same : t.max_blob_id ≡ s.max_blob_id

  pub save-Same :
      (b : NewBlob) (io : List IoOutcome) (s : Server)
      → Same s (store_save b (record s { io = io })).1
  unfolding store_save ◌>>=◌ access persist split_name
  save-Same b io s = record {
    world_same = ground arith;
    dents_same = ground arith;
    blobs_same = ground arith;
    create_blobs_same = ground arith;
    max_dent_id_same = ground arith;
    max_blob_id_same = ground arith;
  }

  unfoldable pub privilege_policy : Policy
  unfolding settle
  privilege_policy = record {
    R = λ u v. v.privilege ≡ u.privilege;
    refl_at = λ w. refl;
    trans_at = λ u v w e e'. e' ∙ e;
    on_settle = λ w. refl;
    on_write = λ w k v. refl;
    on_draw = λ w drawn. refl;
    on_taint = λ w l. refl;
    on_raise = λ w l. refl;
  }

  pub write_privilege :
      (s : Server) (fd : ℕ) (bytes : File) → (blob_write fd bytes s).1.world ≡ s.world
  unfolding blob_write unfinished update_blob ◌>>=◌ access blob_take
  write_privilege s fd bytes = ground arith

  pub finalize_privilege : (s : Server) (fd : ℕ) → (blob_finalize fd s).1.world ≡ s.world
  unfolding blob_finalize take_unfinished put_blob ◌>>=◌ store_save access persist split_name
  finalize_privilege s fd = ground arith

  unfoldable pub privilege_plan : Plan
  unfolding new_dent new_blob close_dent close_blob begin_blob persist privilege_policy
  privilege_plan = record {
    policy = privilege_policy;
    R = λ k j s t. t.world.privilege ≡ s.world.privilege;
    refl_at = λ k j s. refl;
    trans_at = λ k k' j j' m n s t u ek ej e e'. e' ∙ e;
    on_world = λ s w e. e;
    on_label = λ s l. refl;
    on_io = λ s io. refl;
    on_conn = λ s c. refl;
    on_http = λ s h. refl;
    on_persist = λ s b. refl;
    on_new_dent = λ s d. refl;
    on_close_dent = λ s fd. refl;
    on_new_blob = λ s b. refl;
    on_close_blob = λ s fd. refl;
    on_begin_blob = λ s b. refl;
    on_blob_write = λ s fd bytes. rw (write_privilege s fd bytes) refl;
    on_blob_finalize = λ s fd. rw (finalize_privilege s fd) refl;
  }

  -- No system call changes the privilege that a function runs with.
  pub serve-privilege :
      (rounds : ℕ) (incoming : List Incoming) (s : Server)
      → (serve rounds incoming s).2.world.privilege ≡ s.world.privilege
  unfolding privilege_plan
  serve-privilege rounds incoming s = serve_keeps privilege_plan rounds incoming s
