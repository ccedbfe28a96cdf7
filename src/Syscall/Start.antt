-- ===== src/Syscall/Start.antt =====
-- A processor from its start: `SyscallProcessor::new` and `run` of
-- snapfaas/src/syscall_server.rs.
use faasten.Base.{
  ℕ, ◌+◌, ◌*◌, ◌^◌, ◌<◌, ◌≡◌, refl, String, Bool, true, false, Option, List, [], ◌∷◌, arith, length,
  number_eq, inl, inr, Option-cases,
}
use faasten.Base.Dict
use faasten.Base.Dict.{Dict}
use faasten.Labels.{Labels, Buckle, Component}
use faasten.Fs.Types.{File}
use faasten.Fs.World.{Serde, ok}
use faasten.Syscall.Messages.{Reply}
use faasten.Syscall.Server.{Digest, Server, OpenBlob, new_blob}
use faasten.Syscall.Run.{Incoming, Handled, Served, answer, run, new_processor, take_blobs}
use faasten.Syscall.Counters.{serve-Fresh}
use faasten.Syscall.Fresh.{Fresh, Below-insert}
use faasten.Syscall.Privilege.{serve-privilege}

module _ ⦃L : Labels⦄ ⦃S : Serde⦄ ⦃D : Digest⦄ where
  new_processor-Fresh : (l : Buckle) (c : Component) (env : Server) → Fresh (new_processor l c env)
  unfolding new_processor Dict.get
  new_processor-Fresh l c env = record {
    dents = record { below = λ fd v e. ground (arith, e) };
    blobs = record { below = λ fd v e. ground (arith, e) };
    unfinished = record { below = λ fd v e. ground (arith, e) };
  }

  record Taken (n : ℕ) (s t : Server) : Type 0 where
    fresh : Fresh t
    dent_same : t.max_dent_id ≡ s.max_dent_id
    blob_max : t.max_blob_id ≡ s.max_blob_id + n
    privilege_same : t.world.privilege ≡ s.world.privilege

  take_blobs-Taken :
      (blobs : Dict String OpenBlob) (s : Server)
      → Fresh s
      → s.max_blob_id + length blobs < 2 ^ 64
      → Taken (length blobs) s (take_blobs blobs s).1
  unfolding take_blobs new_blob
  take_blobs-Taken [] s f h = record {
    fresh = f;
    dent_same = refl;
    blob_max = omega arith;
    privilege_same = refl;
  }
  take_blobs-Taken ((k, b) ∷ rest) s f h =
      let s' : Server = (new_blob b s).1 in
      let f' : Fresh s' = record {
        dents = f.dents;
        blobs =
            Below-insert s.blobs s.max_blob_id _ s.max_blob_id b f.blobs (omega (arith, h))
              (omega (arith, h));
        unfinished = record { below = λ i w e. omega (arith, f.unfinished.below i w e, h) };
      } in
      let t : Taken (length rest) s' (take_blobs rest s').1 =
        take_blobs-Taken rest s' f' (omega (arith, h)) in
      record {
        fresh = t.fresh;
        dent_same = t.dent_same;
        blob_max = omega (arith, t.blob_max, h);
        privilege_same = t.privilege_same;
      }

  -- Where a reply cannot be sent the server is left as it is, and else what follows goes on from it.
  answer_reply :
      (P : Server → Type 0) (sent : Bool) (again : Server → Served) (r : Reply) (s : Server)
      → P s
      → P (again s).2
      → P (answer sent again (ok (Handled.reply r), s)).2
  unfolding answer
  answer_reply P true again r s h k = k
  answer_reply P false again r s h k = h

  -- From a new processor on, `run` keeps the privilege that the processor was made with, and keeps
  -- every open descriptor below its counter, while the counters of 64 bits do not wrap around.
  pub run-Fresh :
      (rounds : ℕ) (principals : Component → Option (List (List String))) (payload : File)
      (blobs : Dict String OpenBlob) (headers : Dict String String) (invoker : Component)
      (sent : Bool) (incoming : List Incoming) (label : Buckle) (privilege : Component)
      (env : Server)
      → 1 + length incoming < 2 ^ 64
      → 1 + length blobs + 3 * length incoming < 2 ^ 64
      → let t : Server =
          (run rounds principals payload blobs headers invoker sent incoming
            (new_processor label privilege env)).2 in
        Fresh t × (t.world.privilege ≡ privilege)
  unfolding run new_processor
  run-Fresh rounds principals payload blobs headers invoker sent incoming label privilege env hd
        hb =
      let s : Server = new_processor label privilege env in
      let t : Taken (length blobs) s (take_blobs blobs s).1 =
        take_blobs-Taken blobs s (new_processor-Fresh label privilege env) (omega (arith, hb)) in
      elim (Option-cases (principals invoker)) [
        | inl e ↦ rw (run, e) (t.fresh, t.privilege_same)
        | inr (ps, e) ↦
            rw (run, e)
              (answer_reply (λ (u : Server). Fresh u × (u.world.privilege ≡ privilege)) sent _ _ _
                (t.fresh, t.privilege_same)
                (
                  (serve-Fresh rounds incoming (take_blobs blobs s).1 t.fresh
                      (omega (arith, hd, t.dent_same)) (omega (arith, hb, t.blob_max))).0,
                  rw (serve-privilege rounds incoming (take_blobs blobs s).1) t.privilege_same,
                ))
      ]
