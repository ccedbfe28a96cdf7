-- ===== src/Syscall/Counters.antt =====
-- The counters of descriptors over any sequence of system calls:
-- snapfaas/src/syscall_server.rs.
use faasten.Base.{
  ℕ, ◌+◌, ◌*◌, ◌^◌, ◌≤◌, ◌<◌, ◌≡◌, refl, List, arith, length, number_eq, Option-cases, inl, inr,
}
use faasten.Base.Dict
use faasten.Base.Dict.{Dict, get-insert, get-remove}
use faasten.Labels.{Labels}
use faasten.Fs.Types.{File}
use faasten.Fs.World.{Serde}
use faasten.Syscall.Server.{
  Digest, Server, persist, ◌>>=◌, access, split_name, store_save, blob_take,
}
use faasten.Syscall.Blobs.{
  blob_write, blob_finalize, unfinished, update_blob, take_unfinished, put_blob,
}
use faasten.Syscall.Run.{Incoming, serve}
use faasten.Syscall.Plan.{Plan}
use faasten.Syscall.Plan.Loop.{serve_keeps}
use faasten.Syscall.Fresh.{
  Below, Fresh, Grows, FreshStep, any_policy, step_refl, step_trans, new_dent_step, new_blob_step,
  begin_blob_step, close_dent_step, close_blob_step, Below-remove,
}

module _ ⦃L : Labels⦄ ⦃S : Serde⦄ ⦃D : Digest⦄ where
  -- A step that leaves the counters and the entries alone.
  blobs_step :
      (s t : Server)
      → t.dents ≡ s.dents
      → t.max_dent_id ≡ s.max_dent_id
      → t.max_blob_id ≡ s.max_blob_id
      → (Fresh s → Below t.blobs s.max_blob_id)
      → (Fresh s → Below t.create_blobs s.max_blob_id)
      → FreshStep 0 0 s t
  unfolding FreshStep
  blobs_step s t ed em eb hb hu f _ _ = record {
    fresh = record { dents = rw (ed, em) f.dents; blobs = rw eb (hb f); unfinished = rw eb (hu f) };
    dent_grows = omega (arith, em);
    dent_bound = omega (arith, em);
    blob_grows = omega (arith, eb);
    blob_bound = omega (arith, eb);
  }

  write_unfinished :
      (s : Server) (fd : ℕ) (bytes : File)
      → Below s.create_blobs s.max_blob_id
      → Below (blob_write fd bytes s).1.create_blobs s.max_blob_id
  unfolding blob_write unfinished update_blob ◌>>=◌ access blob_take
  write_unfinished s fd bytes b = record {
    below = λ i w e. elim (Option-cases (Dict.get fd s.create_blobs)) [
      | inl h ↦ ground (arith, h, e, b.below i w)
      | inr (o, h) ↦ grind (arith, h, e, b.below i w, b.below fd o h, get-insert)
    ];
  }

  write_blobs : (s : Server) (fd : ℕ) (bytes : File) → (blob_write fd bytes s).1.blobs ≡ s.blobs
  unfolding blob_write unfinished update_blob ◌>>=◌ access blob_take
  write_blobs s fd bytes = ground arith

  write_dents : (s : Server) (fd : ℕ) (bytes : File) → (blob_write fd bytes s).1.dents ≡ s.dents
  unfolding blob_write unfinished update_blob ◌>>=◌ access blob_take
  write_dents s fd bytes = ground arith

  write_max :
      (s : Server) (fd : ℕ) (bytes : File)
      → ((blob_write fd bytes s).1.max_dent_id ≡ s.max_dent_id)
        × ((blob_write fd bytes s).1.max_blob_id ≡ s.max_blob_id)
  unfolding blob_write unfinished update_blob ◌>>=◌ access blob_take
  write_max s fd bytes = (ground arith, ground arith)

  blob_write_step : (s : Server) (fd : ℕ) (bytes : File) → FreshStep 0 0 s (blob_write fd bytes s).1
  blob_write_step s fd bytes =
      blobs_step s (blob_write fd bytes s).1 (write_dents s fd bytes) (write_max s fd bytes).0
        (write_max s fd bytes).1 (λ f. rw (write_blobs s fd bytes) f.blobs)
        (λ f. write_unfinished s fd bytes f.unfinished)

  finalize_dents : (s : Server) (fd : ℕ) → (blob_finalize fd s).1.dents ≡ s.dents
  unfolding blob_finalize take_unfinished put_blob ◌>>=◌ store_save access persist split_name
  finalize_dents s fd = ground arith

  finalize_max :
      (s : Server) (fd : ℕ)
      → ((blob_finalize fd s).1.max_dent_id ≡ s.max_dent_id)
        × ((blob_finalize fd s).1.max_blob_id ≡ s.max_blob_id)
  unfolding blob_finalize take_unfinished put_blob ◌>>=◌ store_save access persist split_name
  finalize_max s fd = (ground arith, ground arith)

  finalize_create_blobs :
      (s : Server) (fd : ℕ) → (blob_finalize fd s).1.create_blobs ≡ Dict.remove fd s.create_blobs
  unfolding blob_finalize take_unfinished put_blob ◌>>=◌ store_save access persist split_name
  finalize_create_blobs s fd = ground arith

  finalize_blobs :
      (s : Server) (fd : ℕ) → Fresh s → Below (blob_finalize fd s).1.blobs s.max_blob_id
  unfolding blob_finalize take_unfinished put_blob ◌>>=◌ store_save access persist split_name
  finalize_blobs s fd f = record {
    below = λ i w e. elim (Option-cases (Dict.get fd s.create_blobs)) [
      | inl h ↦ ground (arith, h, e, f.blobs.below i w)
      | inr (o, h) ↦ ground (
        arith,
        h,
        e,
        f.blobs.below i w,
        f.unfinished.below fd o h,
        get-insert fd i (record { name = D.hash o.written; bytes = o.written }) s.blobs,
      )
    ];
  }

  blob_finalize_step : (s : Server) (fd : ℕ) → FreshStep 0 0 s (blob_finalize fd s).1
  blob_finalize_step s fd =
      blobs_step s (blob_finalize fd s).1 (finalize_dents s fd) (finalize_max s fd).0
        (finalize_max s fd).1 (finalize_blobs s fd)
        λ f.
          rw (finalize_create_blobs s fd)
            (Below-remove s.create_blobs s.max_blob_id fd f.unfinished)

  same_step :
      (s t : Server)
      → t.dents ≡ s.dents
      → t.blobs ≡ s.blobs
      → t.create_blobs ≡ s.create_blobs
      → t.max_dent_id ≡ s.max_dent_id
      → t.max_blob_id ≡ s.max_blob_id
      → FreshStep 0 0 s t
  same_step s t ed eb eu em en =
      blobs_step s t ed em en (λ f. rw eb f.blobs) (λ f. rw eu f.unfinished)

  fresh_plan : Plan
  unfolding any_policy persist
  fresh_plan = record {
    policy = any_policy;
    R = FreshStep;
    refl_at = step_refl;
    trans_at = step_trans;
    on_world = λ s w h. same_step s _ refl refl refl refl refl;
    on_label = λ s l. same_step s _ refl refl refl refl refl;
    on_io = λ s io. same_step s _ refl refl refl refl refl;
    on_conn = λ s c. same_step s _ refl refl refl refl refl;
    on_http = λ s h. same_step s _ refl refl refl refl refl;
    on_persist = λ s b. same_step s _ refl refl refl refl refl;
    on_new_dent = new_dent_step;
    on_close_dent = close_dent_step;
    on_new_blob = new_blob_step;
    on_close_blob = close_blob_step;
    on_begin_blob = begin_blob_step;
    on_blob_write = blob_write_step;
    on_blob_finalize = blob_finalize_step;
  }

  -- While the two counters do not wrap around, that is while 2^64 is not reached with one
  -- descriptor of an entry and three of blobs for each system call, every open descriptor stays
  -- below its counter, and the counters never go back: no descriptor is given out twice.
  pub serve-Fresh :
      (rounds : ℕ) (incoming : List Incoming) (s : Server)
      → Fresh s
      → s.max_dent_id + length incoming < 2 ^ 64
      → s.max_blob_id + 3 * length incoming < 2 ^ 64
      → Fresh (serve rounds incoming s).2
        × (s.max_dent_id ≤ (serve rounds incoming s).2.max_dent_id)
        × (s.max_blob_id ≤ (serve rounds incoming s).2.max_blob_id)
  unfolding fresh_plan FreshStep
  serve-Fresh rounds incoming s f hd hb =
      let g : Grows (length incoming) (3 * length incoming) s (serve rounds incoming s).2 =
        serve_keeps fresh_plan rounds incoming s f hd hb in
      (g.fresh, g.dent_grows, g.blob_grows)
