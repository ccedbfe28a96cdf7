-- ===== src/Syscall/Answers.antt =====
-- What the answer to an invocation of snapfaas/src/syscall_server.rs is made of, from the attempt to
-- send the message to the result that a waiting caller gets.
use faasten.Base.{
  ℕ, String, ◌≡◌, refl, ap, ◌∙◌, Bool, true, false, Option, none, some, List, [], ◌∷◌, number_eq,
  if◌then◌else◌,
}
use faasten.Base.Dict.{Dict}
use faasten.Labels.{Labels, Buckle, Component, implies, lub, public}
use faasten.Fs.Types.{File, GateRef, DirectGate}
use faasten.Fs.World.{Serde, Outcome, ok, err, panic, diverges, World}
use faasten.Fs.Object.{gate_to_invokable}
use faasten.Fs.Utils.{get_privilege, get_current_label, taint_with_label}
use faasten.Syscall.Messages.{LabeledInvoke, TaskReturn, Response, DentInvokeResult}
use faasten.Syscall.Server.{Digest, Server, Conn, Call, proceed, ◌>>=◌, pure, unwrap, on_fs}
use faasten.Syscall.Edit.{or_else}
use faasten.Syscall.Invoke.{
  Invoked, invoke_gate, send_to_gate, send_invoke, send_on, connection, read_on, read_return,
  take_return, save_bytes, after_send, invoke_result, not_invoked,
}
use faasten.Syscall.Outcomes.{on_fs-at, bind-at}

module _ ⦃L : Labels⦄ ⦃S : Serde⦄ where
  -- The message that is sent for a gate.
  abbrev pub invocation :
      DirectGate → Buckle → Component → File → Bool → Dict String String → LabeledInvoke
  invocation g label invoker payload sync parameters = record {
    function = g.function;
    label = label;
    gate_privilege = g.privilege;
    payload = payload;
    headers = parameters;
    sync = sync;
    invoker = invoker;
  }

  -- Whether the next message can be sent, what comes back next, and what is left.
  abbrev pub accepted : List Bool → Bool
  accepted [] = true
  accepted (b ∷ bs) = b

  abbrev pub next_return : List (Option TaskReturn) → Option TaskReturn
  next_return [] = none
  next_return (r ∷ rs) = r

  abbrev pub later : {A : Type 0} → List A → List A
  later [] = []
  later (x ∷ xs) = xs

  -- The connection after a message that could be sent, and whose result is read where the caller waits.
  abbrev pub used : Bool → LabeledInvoke → Conn → Conn
  used true m c = record { sent = m ∷ c.sent; accepts = later c.accepts; returns = later c.returns }
  used false m c = record { sent = m ∷ c.sent; accepts = later c.accepts; returns = c.returns }

  -- The connection after the attempt to send a message.
  abbrev pub tried_on : Bool → LabeledInvoke → Conn → Conn
  tried_on sync m c =
      if accepted c.accepts then used sync m c else record c { accepts = later c.accepts }

  abbrev pub with_conn : Conn → Server → Server
  with_conn c s = record s { sched_conn = some c }

  module _ ⦃D : Digest⦄ where
    -- The bytes as a blob.
    abbrev pub as_blob : Outcome ℕ × Server → Outcome Invoked × Server
    as_blob (ok fd, s) = (ok (record { blobfd = some fd; contents = none; headers = none }), s)
    as_blob (err e, s) = (err e, s)
    as_blob (panic, s) = (panic, s)
    as_blob (diverges, s) = (diverges, s)

    -- What a caller gets of a payload. Without one the code panics.
    abbrev pub paid : Bool → Option Response → Server → Outcome Invoked × Server
    paid toblob none s = (panic, s)
    paid false (some p) s = (ok (record { blobfd = none; contents = p.body; headers = none }), s)
    paid true (some p) s = as_blob (save_bytes (or_else [] p.body) s)

    -- A caller that waits is tainted with the label of the result.
    abbrev pub returned : Bool → Option TaskReturn → Server → Outcome Invoked × Server
    returned toblob none s = (ok not_invoked, s)
    returned toblob (some r) s =
        paid toblob r.payload (record s {
          world = record s.world { label = lub s.world.label (or_else public r.label) };
        })

    abbrev pub answered : Bool → Bool → Option TaskReturn → Server → Outcome Invoked × Server
    answered true toblob r s = returned toblob r s
    answered false toblob r s =
        (ok (record { blobfd = none; contents = some []; headers = none }), s)

    -- The answer where the clearance holds.
    abbrev pub answer : Bool → Bool → LabeledInvoke → Conn → Server → Outcome Invoked × Server
    answer sync toblob m c s =
        if accepted c.accepts
        then answered sync toblob (next_return c.returns) (with_conn (tried_on sync m c) s)
        else (ok not_invoked, with_conn (tried_on sync m c) s)

    -- The response to the call.
    abbrev pub response : Outcome Invoked × Server → Outcome DentInvokeResult × Server
    response (ok i, s) = (ok (invoke_result i), s)
    response (err e, s) = (err e, s)
    response (panic, s) = (panic, s)
    response (diverges, s) = (diverges, s)

    pub bind-response :
        (m : Call Invoked) (s : Server) → (m >>= λ i. pure (invoke_result i)) s ≡ response (m s)
    unfolding ◌>>=◌ pure
    bind-response m s = proceed-response (m s).0 (m s).1
      where
        proceed-response :
            (r : Outcome Invoked) (t : Server)
            → proceed r (λ i. pure (invoke_result i)) t ≡ response (r, t)
        proceed-response (ok i) t = refl
        proceed-response (err e) t = refl
        proceed-response panic t = refl
        proceed-response diverges t = refl

    bind-as_blob :
        (m : Call ℕ) (s : Server)
        → (m >>= λ fd. pure (record { blobfd = some fd; contents = none; headers = none })) s
          ≡ as_blob (m s)
    unfolding ◌>>=◌ pure
    bind-as_blob m s = proceed-as_blob (m s).0 (m s).1
      where
        proceed-as_blob :
            (r : Outcome ℕ) (t : Server)
            → proceed r
                (λ fd. pure (record { blobfd = some fd; contents = none; headers = none }))
                t
              ≡ as_blob (r, t)
        proceed-as_blob (ok i) t = refl
        proceed-as_blob (err e) t = refl
        proceed-as_blob panic t = refl
        proceed-as_blob diverges t = refl

    paid_lem :
        (toblob : Bool) (o : Option Response) (s : Server)
        → (unwrap o >>= λ payload. elim toblob [
          | true ↦ save_bytes (or_else [] payload.body) >>= λ fd.
              pure (record { blobfd = some fd; contents = none; headers = none })
          | false ↦ pure (record { blobfd = none; contents = payload.body; headers = none })
        ])
            s
          ≡ paid toblob o s
    unfolding ◌>>=◌ unwrap pure
    paid_lem toblob none s = refl
    paid_lem true (some p) s = bind-as_blob (save_bytes (or_else [] p.body)) s
    paid_lem false (some p) s = refl

    take_return_lem :
        (toblob : Bool) (r : TaskReturn) (s : Server)
        → take_return toblob r s ≡ returned toblob (some r) s
    unfolding take_return ◌>>=◌ on_fs taint_with_label
    take_return_lem toblob r s = paid_lem toblob r.payload _

    after_send_lem :
        (sync toblob : Bool) (m : LabeledInvoke) (sent : List LabeledInvoke) (bs : List Bool)
        (rs : List (Option TaskReturn)) (s : Server)
        → after_send sync toblob
            (with_conn (record { sent = m ∷ sent; accepts = later bs; returns = rs }) s)
          ≡ answered sync toblob
              (next_return rs)
              (with_conn (used sync m (record { sent = sent; accepts = bs; returns = rs })) s)
    unfolding after_send ◌>>=◌ connection unwrap read_return read_on pure
    after_send_lem false toblob m sent bs rs s = refl
    after_send_lem true toblob m sent bs [] s = refl
    after_send_lem true toblob m sent bs (none ∷ rs) s = refl
    after_send_lem true toblob m sent bs (some r ∷ rs) s = take_return_lem toblob r _

    send_to_gate_lem :
        (sync toblob : Bool) (g : DirectGate) (p : Component) (payload : File)
        (ps : Dict String String) (sent : List LabeledInvoke) (bs : List Bool)
        (rs : List (Option TaskReturn)) (s : Server)
        → let c : Conn = record { sent = sent; accepts = bs; returns = rs } in
          send_to_gate g p payload sync toblob ps (with_conn c s)
          ≡ answer sync toblob (invocation g s.world.label p payload sync ps) c s
    unfolding send_to_gate ◌>>=◌ connection unwrap on_fs get_current_label send_invoke send_on pure
    send_to_gate_lem sync toblob g p payload ps sent [] rs s =
        after_send_lem sync toblob _ sent [] rs s
    send_to_gate_lem sync toblob g p payload ps sent (true ∷ bs) rs s =
        after_send_lem sync toblob _ sent (true ∷ bs) rs s
    send_to_gate_lem sync toblob g p payload ps sent (false ∷ bs) rs s = refl

    -- What follows the resolution of a gate.
    tested_lem :
        (sync toblob allowed : Bool) (g : DirectGate) (p : Component) (payload : File)
        (ps : Dict String String) (c : Conn) (s : Server)
        → s.sched_conn ≡ some c
        → (if allowed then send_to_gate g p payload sync toblob ps else pure not_invoked) s ≡ (
            if allowed
            then answer sync toblob (invocation g s.world.label p payload sync ps) c s
            else (ok not_invoked, s))
    unfolding pure
    tested_lem sync toblob true g p payload ps c s e =
        let same : s ≡ with_conn c s = ap (λ o. record s { sched_conn = o }) e in
        ap (send_to_gate g p payload sync toblob ps) same
        ∙ send_to_gate_lem sync toblob g p payload ps c.sent c.accepts c.returns s
    tested_lem sync toblob false g p payload ps c s e = refl

    pub invoke_gate_lem :
        (sync toblob : Bool) (rounds : ℕ) (r : GateRef) (g : DirectGate) (payload : File)
        (ps : Dict String String) (c : Conn) (s : Server)
        → (gate_to_invokable rounds r s.world).0 ≡ ok g
        → s.sched_conn ≡ some c
        → let w : World = (gate_to_invokable rounds r s.world).1 in
          let t : Server = record s { world = w } in
          invoke_gate rounds r payload sync toblob ps s ≡ (
            if implies w.privilege g.invoker_integrity_clearance
            then answer sync toblob (invocation g w.label w.privilege payload sync ps) c t
            else (ok not_invoked, t))
    unfolding invoke_gate get_privilege
    invoke_gate_lem sync toblob rounds r g payload ps c s h e =
        let w : World = (gate_to_invokable rounds r s.world).1 in
        let t : Server = record s { world = w } in
        bind-at _ _ s t g (on_fs-at (gate_to_invokable rounds r) s (ok g, w) (ap (λ x. (x, w)) h))
        ∙ bind-at _ _ t t w.privilege
            (on_fs-at get_privilege t (ok w.privilege, w) (privilege_is w))
        ∙ tested_lem sync toblob (implies w.privilege g.invoker_integrity_clearance) g w.privilege
            payload ps c t e
      where
        privilege_is : (w : World) → get_privilege w ≡ (ok w.privilege, w)
        privilege_is w = refl
