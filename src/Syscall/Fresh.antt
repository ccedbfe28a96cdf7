-- ===== src/Syscall/Fresh.antt =====
-- The descriptors that the server gives out: `max_dent_id` and `max_blob_id` of
-- snapfaas/src/syscall_server.rs.
use faasten.Base.{ℕ, ◌+◌, ◌^◌, ◌≤◌, ◌<◌, ◌≡◌, some, arith, number_eq}
use faasten.Base.Dict
use faasten.Base.Dict.{Dict, get-insert, get-remove}
use faasten.Labels.{Labels}
use faasten.Fs.Types.{DirEntry}
use faasten.Fs.World.{Serde}
use faasten.Fs.World.Steps.{Policy}
use faasten.Syscall.Server.{
  OpenBlob, NewBlob, Digest, Server, new_dent, new_blob, close_dent, close_blob, next_id,
}
use faasten.Syscall.Blobs.{begin_blob}

-- Every descriptor of the table is below the bound.
pub record Below {V : Type 0} (m : Dict ℕ V) (bound : ℕ) : Type 0 where
  pub below : (fd : ℕ) (v : V) → Dict.get fd m ≡ some v → fd < bound

pub Below-insert :
    {V : Type 0} (m : Dict ℕ V) (k j fd : ℕ) (v : V)
    → Below m k
    → k ≤ j
    → fd < j
    → Below (Dict.insert fd v m) j
Below-insert m k j fd v b h hk = record {
  below = λ i w e. ground (arith, get-insert fd i v m, e, b.below i w);
}

pub Below-remove : {V : Type 0} (m : Dict ℕ V) (k fd : ℕ) → Below m k → Below (Dict.remove fd m) k
Below-remove m k fd b = record {
  below = λ i w e. ground (arith, get-remove fd i m, e, b.below i w);
}

next_id_lem : (n : ℕ) → n + 1 < 2 ^ 64 → next_id n ≡ n + 1
next_id_lem n h = omega (arith, h)

module _ ⦃L : Labels⦄ ⦃S : Serde⦄ ⦃D : Digest⦄ where
  -- Every open descriptor is below the counter that the next one is taken from.
  pub record Fresh (s : Server) : Type 0 where
    pub dents : Below s.dents s.max_dent_id
    pub blobs : Below s.blobs s.max_blob_id
    pub unfinished : Below s.create_blobs s.max_blob_id

  -- While the counters do not wrap around, they grow by at most so much, and all stays fresh.
  pub record Grows (k j : ℕ) (s t : Server) : Type 0 where
    pub fresh : Fresh t
    pub dent_grows : s.max_dent_id ≤ t.max_dent_id
    pub dent_bound : t.max_dent_id ≤ s.max_dent_id + k
    pub blob_grows : s.max_blob_id ≤ t.max_blob_id
    pub blob_bound : t.max_blob_id ≤ s.max_blob_id + j

  unfoldable pub FreshStep : ℕ → ℕ → Server → Server → Type 0
  FreshStep k j s t =
      Fresh s → (s.max_dent_id + k < 2 ^ 64) → (s.max_blob_id + j < 2 ^ 64) → Grows k j s t

  unfoldable pub any_policy : Policy
  any_policy = record {
    R = λ u v. Unit;
    refl_at = λ w. tt;
    trans_at = λ u v w e e'. tt;
    on_settle = λ w. tt;
    on_write = λ w k v. tt;
    on_draw = λ w drawn. tt;
    on_taint = λ w l. tt;
    on_raise = λ w l. tt;
  }

  -- The same tables and counters.
  pub step_refl : (k j : ℕ) (s : Server) → FreshStep k j s s
  unfolding FreshStep
  step_refl k j s f hd hb = record {
    fresh = f;
    dent_grows = omega arith;
    dent_bound = omega arith;
    blob_grows = omega arith;
    blob_bound = omega arith;
  }

  pub step_trans :
      (k k' j j' m n : ℕ) (s t u : Server)
      → m ≡ k + k'
      → n ≡ j + j'
      → FreshStep k j s t
      → FreshStep k' j' t u
      → FreshStep m n s u
  unfolding FreshStep
  step_trans k k' j j' m n s t u em en f g fs hd hb =
      let a : Grows k j s t = f fs (omega (arith, em, hd)) (omega (arith, en, hb)) in
      let b : Grows k' j' t u =
        g a.fresh (omega (arith, em, hd, a.dent_bound)) (omega (arith, en, hb, a.blob_bound)) in
      record {
        fresh = b.fresh;
        dent_grows = omega (arith, a.dent_grows, b.dent_grows);
        dent_bound = omega (arith, em, a.dent_bound, b.dent_bound);
        blob_grows = omega (arith, a.blob_grows, b.blob_grows);
        blob_bound = omega (arith, en, a.blob_bound, b.blob_bound);
      }

  pub new_dent_step : (s : Server) (d : DirEntry) → FreshStep 1 0 s (new_dent d s).1
  unfolding FreshStep new_dent
  new_dent_step s d f hd hb = record {
    fresh = record {
      dents =
          Below-insert s.dents s.max_dent_id _ s.max_dent_id d f.dents (omega arith) (omega arith);
      blobs = f.blobs;
      unfinished = f.unfinished;
    };
    dent_grows = omega arith;
    dent_bound = omega arith;
    blob_grows = omega arith;
    blob_bound = omega arith;
  }

  pub new_blob_step : (s : Server) (b : OpenBlob) → FreshStep 0 1 s (new_blob b s).1
  unfolding FreshStep new_blob
  new_blob_step s b f hd hb = record {
    fresh = record {
      dents = f.dents;
      blobs =
          Below-insert s.blobs s.max_blob_id _ s.max_blob_id b f.blobs (omega arith) (omega arith);
      unfinished = record { below = λ i w e. omega (arith, f.unfinished.below i w e) };
    };
    dent_grows = omega arith;
    dent_bound = omega arith;
    blob_grows = omega arith;
    blob_bound = omega arith;
  }

  pub begin_blob_step : (s : Server) (b : NewBlob) → FreshStep 0 1 s (begin_blob b s).1
  unfolding FreshStep begin_blob
  begin_blob_step s b f hd hb = record {
    fresh = record {
      dents = f.dents;
      blobs = record { below = λ i w e. omega (arith, f.blobs.below i w e) };
      unfinished =
          Below-insert s.create_blobs s.max_blob_id _ s.max_blob_id b f.unfinished (omega arith)
            (omega arith);
    };
    dent_grows = omega arith;
    dent_bound = omega arith;
    blob_grows = omega arith;
    blob_bound = omega arith;
  }

  pub close_dent_step : (s : Server) (fd : ℕ) → FreshStep 0 0 s (close_dent fd s).1
  unfolding FreshStep close_dent
  close_dent_step s fd f hd hb = record {
    fresh = record {
      dents = Below-remove s.dents s.max_dent_id fd f.dents;
      blobs = f.blobs;
      unfinished = f.unfinished;
    };
    dent_grows = omega arith;
    dent_bound = omega arith;
    blob_grows = omega arith;
    blob_bound = omega arith;
  }

  pub close_blob_step : (s : Server) (fd : ℕ) → FreshStep 0 0 s (close_blob fd s).1
  unfolding FreshStep close_blob
  close_blob_step s fd f hd hb = record {
    fresh = record {
      dents = f.dents;
      blobs = Below-remove s.blobs s.max_blob_id fd f.blobs;
      unfinished = f.unfinished;
    };
    dent_grows = omega arith;
    dent_bound = omega arith;
    blob_grows = omega arith;
    blob_bound = omega arith;
  }
