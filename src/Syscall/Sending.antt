-- ===== src/Syscall/Sending.antt =====
-- What `dent_invoke` of snapfaas/src/syscall_server.rs sends for a gate, and what it answers.
use faasten.Base.{
  ℕ, ◌<◌, String, ◌≡◌, refl, ap, ◌∙◌, Bool, true, false, Option, none, some, List, [], arith,
  length, number_eq, if◌then◌else◌,
}
use faasten.Base.Dict
use faasten.Base.Dict.{Dict}
use faasten.Labels.{Labels, dc_true, implies}
use faasten.Fs.Types.{Labeled, DirEntry, File, Gate, GateRef, DirectGate, RedirectGate}
use faasten.Fs.World.{Serde, Outcome, ok, err, panic, diverges, World}
use faasten.Fs.Object.{gate_to_invokable}
use faasten.Fs.Object.Directory.{alone, Has}
use faasten.Fs.Object.Gates.{Leads, accumulated, gate_to_invokable_lem}
use faasten.Syscall.Messages.{LabeledInvoke, TaskReturn, Response, DentInvokeResult}
use faasten.Syscall.Server.{
  Digest, Server, Conn, Call, NewBlob, OpenBlob, proceed, ◌>>=◌, unwrap, store_create, store_save,
  write_all, new_blob, access, persist, split_name,
}
use faasten.Syscall.Edit.{or_else}
use faasten.Syscall.Invoke.{Invoked, dent_invoke, invoke_gate, save_bytes, not_invoked}
use faasten.Syscall.Outcomes.{calm, dent-at, bind-at}
use faasten.Syscall.Answers.{
  invocation, accepted, tried_on, as_blob, paid, answered, answer, response, bind-response,
  invoke_gate_lem,
}

module _ ⦃L : Labels⦄ ⦃S : Serde⦄ where
  module _ ⦃D : Digest⦄ where
    -- What leaves the connection alone.
    record KeepsConn {A : Type 0} (m : Call A) : Type 0 where
      at : (s : Server) → (m s).1.sched_conn ≡ s.sched_conn

    proceed-conn :
        {A B : Type 0} (r : Outcome A) (s : Server) (f : A → Call B)
        → ((a : A) → KeepsConn (f a))
        → (proceed r f s).1.sched_conn ≡ s.sched_conn
    proceed-conn (ok a) s f h = (h a).at s
    proceed-conn (err e) s f h = refl
    proceed-conn panic s f h = refl
    proceed-conn diverges s f h = refl

    KeepsConn-bind :
        {A B : Type 0} (m : Call A) (f : A → Call B)
        → KeepsConn m
        → ((a : A) → KeepsConn (f a))
        → KeepsConn (m >>= f)
    unfolding ◌>>=◌
    KeepsConn-bind m f h k = record { at = λ s. proceed-conn (m s).0 (m s).1 f k ∙ h.at s }

    KeepsConn-unwrap : {A : Type 0} (o : Option A) → KeepsConn (unwrap o)
    unfolding unwrap
    KeepsConn-unwrap none = record { at = λ s. refl }
    KeepsConn-unwrap (some a) = record { at = λ s. refl }

    KeepsConn-create : KeepsConn store_create
    unfolding store_create ◌>>=◌ access
    KeepsConn-create = record { at = λ s. ground arith }

    KeepsConn-write : (b : NewBlob) (bytes : File) → KeepsConn (write_all b bytes)
    unfolding write_all ◌>>=◌ access
    KeepsConn-write b bytes = record { at = λ s. ground arith }

    KeepsConn-save : (b : NewBlob) → KeepsConn (store_save b)
    unfolding store_save ◌>>=◌ access persist split_name
    KeepsConn-save b = record { at = λ s. ground arith }

    KeepsConn-new_blob : (b : OpenBlob) → KeepsConn (new_blob b)
    unfolding new_blob
    KeepsConn-new_blob b = record { at = λ s. refl }

    KeepsConn-save_bytes : (bytes : File) → KeepsConn (save_bytes bytes)
    unfolding save_bytes
    KeepsConn-save_bytes bytes = KeepsConn-bind _ _ KeepsConn-create λ a.
        KeepsConn-bind _ _ (KeepsConn-unwrap a) λ b.
          KeepsConn-bind _ _ (KeepsConn-write b bytes) λ c.
            KeepsConn-bind _ _ (KeepsConn-unwrap c) λ d.
              KeepsConn-bind _ _ (KeepsConn-save d)
                λ e. KeepsConn-bind _ _ (KeepsConn-unwrap e) λ f. KeepsConn-new_blob f

    as_blob-conn : (r : Outcome ℕ) (s : Server) → (as_blob (r, s)).1 ≡ s
    as_blob-conn (ok fd) s = refl
    as_blob-conn (err e) s = refl
    as_blob-conn panic s = refl
    as_blob-conn diverges s = refl

    response-conn : (r : Outcome Invoked) (s : Server) → (response (r, s)).1 ≡ s
    response-conn (ok i) s = refl
    response-conn (err e) s = refl
    response-conn panic s = refl
    response-conn diverges s = refl

    paid-conn :
        (toblob : Bool) (o : Option Response) (s : Server)
        → (paid toblob o s).1.sched_conn ≡ s.sched_conn
    paid-conn toblob none s = refl
    paid-conn false (some p) s = refl
    paid-conn true (some p) s =
        let m = save_bytes (or_else [] p.body) in
        ap (λ t. t.sched_conn) (as_blob-conn (m s).0 (m s).1)
        ∙ (KeepsConn-save_bytes (or_else [] p.body)).at s

    answered-conn :
        (sync toblob : Bool) (o : Option TaskReturn) (s : Server)
        → (answered sync toblob o s).1.sched_conn ≡ s.sched_conn
    answered-conn false toblob o s = refl
    answered-conn true toblob none s = refl
    answered-conn true toblob (some r) s = paid-conn toblob r.payload _

    attempted-conn :
        (b sync toblob : Bool) (o : Option TaskReturn) (s : Server)
        → (if b then answered sync toblob o s else (ok not_invoked, s)).1.sched_conn ≡ s.sched_conn
    attempted-conn true sync toblob o s = answered-conn sync toblob o s
    attempted-conn false sync toblob o s = refl

    tested-conn :
        (allowed sync toblob : Bool) (m : LabeledInvoke) (c : Conn) (s : Server)
        → s.sched_conn ≡ some c
        → (if allowed then answer sync toblob m c s else (ok not_invoked, s)).1.sched_conn
          ≡ some (if allowed then tried_on sync m c else c)
    tested-conn true sync toblob m c s e = attempted-conn (accepted c.accepts) sync toblob _ _
    tested-conn false sync toblob m c s e = e

    -- `dent_invoke` on a gate, while no other thread writes, with the gates that it leads through and
    -- the direct gate at the end: the response and the server after it, whether the caller waits or
    -- not, wants a blob or not, and whether or not the message can be sent. Where the privilege of the
    -- thread implies the clearance that is accumulated over the gates, one message is attempted, with
    -- the function of the direct gate, the accumulated privilege and the label that the thread has
    -- after it read the gates; else the connection is left alone. A call whose message is not sent is
    -- answered without success. A caller that waits is tainted with the label of the result and gets
    -- its body, and is answered without success where no result comes back.
    pub dent_invoke-gate :
        (s : Server) (rounds fd : ℕ) (r : GateRef) (gate : Labeled Gate) (reds : List RedirectGate)
        (g : DirectGate) (c : Conn) (payload : File) (sync toblob : Bool) (ps : Dict String String)
        → Dict.get fd s.dents ≡ some (DirEntry.gate r)
        → Has s.world r gate
        → Leads s.world.store gate.contents reds g
        → length reds < rounds
        → s.sched_conn ≡ some c
        → let a : DirectGate = accumulated dc_true dc_true dc_true reds g in
          let w : World = (gate_to_invokable rounds r (alone s.world)).1 in
          let m : LabeledInvoke = invocation a w.label w.privilege payload sync ps in
          let allowed : Bool = implies w.privilege a.invoker_integrity_clearance in
          let t : Outcome DentInvokeResult × Server =
            dent_invoke rounds fd payload sync toblob ps (calm s) in
          (t
            ≡ response (
                if allowed
                then answer sync toblob m c (record s { world = w })
                else (ok not_invoked, record s { world = w })))
          × (t.1.sched_conn ≡ some (if allowed then tried_on sync m c else c))
    unfolding dent_invoke
    dent_invoke-gate s rounds fd r gate reds g c payload sync toblob ps hf h leads k hc =
        let w : World = (gate_to_invokable rounds r (alone s.world)).1 in
        let a : DirectGate = accumulated dc_true dc_true dc_true reds g in
        let m : LabeledInvoke = invocation a w.label w.privilege payload sync ps in
        let allowed : Bool = implies w.privilege a.invoker_integrity_clearance in
        let whole =
          bind-at _ _ (calm s) (calm s) _ (dent-at (calm s) fd _ hf)
          ∙ bind-response (invoke_gate rounds r payload sync toblob ps) (calm s)
          ∙ ap response (
              invoke_gate_lem sync toblob rounds r a payload ps c (calm s)
                (gate_to_invokable_lem rounds s.world r gate reds g h leads k) hc) in
        let x : Outcome Invoked × Server =
          if allowed
          then answer sync toblob m c (record s { world = w })
          else (ok not_invoked, record s { world = w }) in
        (
          whole,
          ap (λ y. y.1.sched_conn) whole
              ∙ ap (λ y. y.sched_conn) (response-conn x.0 x.1)
              ∙ tested-conn allowed sync toblob m c (record s { world = w }) hc,
        )
