-- ===== src/Syscall/Plan/Edits.antt =====
-- `dent_create`, `dent_update` and `dent_invoke` follow any plan.
use faasten.Base.{ℕ, zero, suc, String, Bool, true, false, Option, none, some, List, [], ◌∷◌, arith}
use faasten.Base.Dict.{Dict}
use faasten.Labels.{Labels, Buckle, Component}
use faasten.Fs.Types.{DirEntry, File, Gate, GateRef, Service, ServiceRef, DirectGate, Function}
use faasten.Fs.World.{Serde}
use faasten.Fs.Object.Steps.{Steps-get}
use faasten.Syscall.Messages.{
  GateMessage, CreateKind, UpdateKind, FunctionMessage, DirectGateMessage, RedirectGateMessage,
  ServiceMessage, LabeledInvoke, TaskReturn,
}
use faasten.Syscall.Server.{Digest, HttpAnswer, Conn}
use faasten.Syscall.Edit
use faasten.Syscall.Invoke
use faasten.Syscall.Plan.{
  Plan, Follows, Follows-pure, Follows-throw, Follows-panics, Follows-quiet, Follows-bind,
  Follows-dent, Follows-unwrap, Follows-open_blob, Follows-ok_or, Follows-taint_with_label,
}
use faasten.Syscall.Plan.Handlers.{
  call_rules, Follows-store_create, Follows-store_save, Follows-write_all,
}

module _ ⦃L : Labels⦄ ⦃S : Serde⦄ ⦃D : Digest⦄ {p : Plan} where
  Follows-blob_entry : (fd : ℕ) → Follows p 0 0 (Edit.blob_entry fd)
  unfolding Edit.blob_entry
  Follows-blob_entry fd = Follows-quiet _ _ (Follows-dent fd) λ found.
      Follows-quiet _ _ (Follows-ok_or 0 0 _ found)
        (elim [ DirEntry.blob r ↦ Follows-pure 0 0 _ | _ ↦ Follows-throw 0 0 _ ])

  Follows-function_of : (f : FunctionMessage) → Follows p 0 0 (Edit.function_of f)
  unfolding Edit.function_of
  Follows-function_of f = search (call_rules, Follows-blob_entry) depth 10

  Follows-create_gate : (l : Buckle) (g : Option GateMessage) → Follows p 0 0 (Edit.create_gate l g)
  unfolding Edit.create_gate
  Follows-create_gate l none = Follows-throw 0 0 _
  Follows-create_gate l (some (GateMessage.direct dg)) =
      search (call_rules, Follows-function_of) depth 10
  Follows-create_gate l (some (GateMessage.redirect rd)) =
      Follows-quiet _ _ (Follows-dent rd.gate)
        (elim [ some (DirEntry.gate r) ↦ search call_rules depth 10 | _ ↦ Follows-throw 0 0 _ ])

  Follows-service_of : (m : ServiceMessage) → Follows p 0 0 (Edit.service_of m)
  unfolding Edit.service_of
  Follows-service_of m = search call_rules depth 10

  Follows-create_entry : (l : Buckle) (k : CreateKind) → Follows p 0 0 (Edit.create_entry l k)
  unfolding Edit.create_entry
  Follows-create_entry l CreateKind.directory = search call_rules
  Follows-create_entry l CreateKind.file = search call_rules
  Follows-create_entry l CreateKind.faceted_directory = search call_rules
  Follows-create_entry l (CreateKind.gate g) = Follows-create_gate l g
  Follows-create_entry l (CreateKind.service m) = search (call_rules, Follows-service_of)
  Follows-create_entry l (CreateKind.blob fd) = search call_rules

  pub Follows-dent_create :
      (k : CreateKind) (l : Option Buckle) → Follows p 1 0 (Edit.dent_create k l)
  unfolding Edit.dent_create
  Follows-dent_create k l = search (call_rules, Follows-create_entry)

  Follows-image_update : (fd : ℕ) (old : String) → Follows p 0 0 (Edit.image_update fd old)
  unfolding Edit.image_update
  Follows-image_update zero old = Follows-pure 0 0 _
  Follows-image_update (suc n) old = search (call_rules, Follows-blob_entry)

  Follows-function_update :
      (f : Option FunctionMessage) (old : Function) → Follows p 0 0 (Edit.function_update f old)
  unfolding Edit.function_update
  Follows-function_update none old = Follows-pure 0 0 _
  Follows-function_update (some f) old = search (call_rules, Follows-image_update) depth 8

  Follows-stored_gate : (r : GateRef) → Follows p 0 0 (Edit.stored_gate r)
  unfolding Edit.stored_gate
  Follows-stored_gate r = search (call_rules, Steps-get)

  Follows-update_direct :
      (r : GateRef) (m : DirectGateMessage) (g : Gate) → Follows p 0 0 (Edit.update_direct r m g)
  unfolding Edit.update_direct
  Follows-update_direct r m (Gate.direct old) = search (call_rules, Follows-function_update)
  Follows-update_direct r m (Gate.redirect _) = Follows-throw 0 0 _

  Follows-update_redirect :
      (r : GateRef) (m : RedirectGateMessage) (g : Gate)
      → Follows p 0 0 (Edit.update_redirect r m g)
  unfolding Edit.update_redirect
  Follows-update_redirect r m (Gate.redirect old) =
      Follows-quiet _ _ (Follows-dent m.gate)
        (elim [ some (DirEntry.gate t) ↦ search call_rules | _ ↦ Follows-throw 0 0 _ ])
  Follows-update_redirect r m (Gate.direct _) = Follows-throw 0 0 _

  Follows-update_gate :
      (r : GateRef) (m : Option GateMessage) → Follows p 0 0 (Edit.update_gate r m)
  unfolding Edit.update_gate
  Follows-update_gate r none = Follows-throw 0 0 _
  Follows-update_gate r (some (GateMessage.direct m)) =
      search (call_rules, Follows-stored_gate, Follows-update_direct)
  Follows-update_gate r (some (GateMessage.redirect m)) =
      search (call_rules, Follows-stored_gate, Follows-update_redirect)

  Follows-update_entry : (fd : ℕ) (k : UpdateKind) → Follows p 0 0 (Edit.update_entry fd k)
  unfolding Edit.update_entry
  Follows-update_entry fd (UpdateKind.file bytes) =
      Follows-quiet _ _ (Follows-dent fd)
        (elim [ some (DirEntry.file r) ↦ search call_rules | _ ↦ Follows-throw 0 0 _ ])
  Follows-update_entry fd (UpdateKind.gate m) =
      Follows-quiet _ _ (Follows-dent fd)
        (elim [ some (DirEntry.gate r) ↦ Follows-update_gate r m | _ ↦ Follows-throw 0 0 _ ])
  Follows-update_entry fd (UpdateKind.service m) = Follows-quiet _ _ (Follows-dent fd) (elim [
    | some (DirEntry.service r) ↦ search (call_rules, Follows-service_of)
    | _ ↦ Follows-throw 0 0 _
  ])
  Follows-update_entry fd (UpdateKind.blob blobfd) =
      Follows-quiet _ _ (Follows-open_blob blobfd) λ found.
        Follows-quiet _ _ (Follows-ok_or 0 0 _ found) λ b.
          Follows-quiet _ _ (Follows-dent fd)
            (elim [ some (DirEntry.blob r) ↦ search call_rules | _ ↦ Follows-throw 0 0 _ ])

  pub Follows-dent_update : (fd : ℕ) (k : UpdateKind) → Follows p 0 0 (Edit.dent_update fd k)
  unfolding Edit.dent_update
  Follows-dent_update fd k = search (call_rules, Follows-update_entry)

  Follows-send_on :
      (c : Conn) (m : LabeledInvoke) (bs : List Bool) → Follows p 0 0 (Invoke.send_on c m bs)
  unfolding Invoke.send_on
  Follows-send_on c m [] = record { at = λ s. p.on_conn s _ }
  Follows-send_on c m (true ∷ bs) = record { at = λ s. p.on_conn s _ }
  Follows-send_on c m (false ∷ bs) = record { at = λ s. p.on_conn s _ }

  Follows-send_invoke : (c : Conn) (m : LabeledInvoke) → Follows p 0 0 (Invoke.send_invoke c m)
  unfolding Invoke.send_invoke
  Follows-send_invoke c m = Follows-send_on c m c.accepts

  Follows-connection : Follows p 0 0 Invoke.connection
  unfolding Invoke.connection
  Follows-connection = record { at = p.refl_at 0 0 }

  Follows-save_bytes : (bytes : File) → Follows p 0 1 (Invoke.save_bytes bytes)
  unfolding Invoke.save_bytes
  Follows-save_bytes bytes =
      search (call_rules, Follows-store_create, Follows-write_all, Follows-store_save) depth 10

  Follows-read_on : (c : Conn) (rs : List (Option TaskReturn)) → Follows p 0 0 (Invoke.read_on c rs)
  unfolding Invoke.read_on
  Follows-read_on c [] = record { at = p.refl_at 0 0 }
  Follows-read_on c (r ∷ rs) = record { at = λ s. p.on_conn s _ }

  Follows-read_return : (c : Conn) → Follows p 0 0 (Invoke.read_return c)
  unfolding Invoke.read_return
  Follows-read_return c = Follows-read_on c c.returns

  Follows-take_http : (h : List HttpAnswer) → Follows p 0 0 (Invoke.take_http h)
  unfolding Invoke.take_http
  Follows-take_http [] = record { at = p.refl_at 0 0 }
  Follows-take_http (a ∷ h) = record { at = λ s. p.on_http s h }

  Follows-next_answer : Follows p 0 0 Invoke.next_answer
  unfolding Invoke.next_answer
  Follows-next_answer = record { at = λ s. (Follows-take_http s.http).at s }

  Follows-take_return :
      (toblob : Bool) (r : TaskReturn) → Follows p 0 1 (Invoke.take_return toblob r)
  unfolding Invoke.take_return
  Follows-take_return true r = Follows-quiet _ _ (Follows-taint_with_label _) λ _.
      Follows-quiet _ _ (Follows-unwrap 0 0 _) λ m.
        Follows-bind 0 0 1 0 _ _ (omega arith) (omega arith) (Follows-save_bytes _)
          λ fd. Follows-pure 0 0 _
  Follows-take_return false r = search call_rules

  Follows-after_send : (sync toblob : Bool) → Follows p 0 1 (Invoke.after_send sync toblob)
  unfolding Invoke.after_send
  Follows-after_send true toblob = Follows-quiet _ _ Follows-connection λ found.
      Follows-quiet _ _ (Follows-unwrap 0 0 found) λ c.
        Follows-quiet _ _ (Follows-read_return c)
          (elim [ none ↦ Follows-pure 0 1 _ | some r ↦ Follows-take_return toblob r ])
  Follows-after_send false toblob = Follows-pure 0 1 _

  Follows-send_to_gate :
      (g : DirectGate) (own : Component) (payload : File) (sync toblob : Bool)
      (ps : Dict String String)
      → Follows p 0 1 (Invoke.send_to_gate g own payload sync toblob ps)
  unfolding Invoke.send_to_gate
  Follows-send_to_gate g own payload sync toblob ps =
      search (call_rules, Follows-connection, Follows-send_invoke, Follows-after_send) depth 8

  Follows-invoke_gate :
      (rounds : ℕ) (r : GateRef) (payload : File) (sync toblob : Bool) (ps : Dict String String)
      → Follows p 0 1 (Invoke.invoke_gate rounds r payload sync toblob ps)
  unfolding Invoke.invoke_gate
  Follows-invoke_gate rounds r payload sync toblob ps = search (call_rules, Follows-send_to_gate)

  Follows-take_answer :
      (toblob : Bool) (a : HttpAnswer) → Follows p 0 1 (Invoke.take_answer toblob a)
  unfolding Invoke.take_answer
  Follows-take_answer toblob HttpAnswer.send_failed = Follows-pure 0 1 _
  Follows-take_answer toblob HttpAnswer.bad_header = Follows-panics 0 1
  Follows-take_answer true (HttpAnswer.answered headers body) =
      Follows-quiet _ _ (Follows-unwrap 0 0 body) λ bytes.
        Follows-bind 0 0 1 0 _ _ (omega arith) (omega arith) (Follows-save_bytes bytes)
          λ fd. Follows-pure 0 0 _
  Follows-take_answer false (HttpAnswer.answered headers body) = Follows-pure 0 1 _

  Follows-send_to_service :
      (m : Service) (toblob : Bool) → Follows p 0 1 (Invoke.send_to_service m toblob)
  unfolding Invoke.send_to_service
  Follows-send_to_service m toblob = search (call_rules, Follows-next_answer, Follows-take_answer)

  Follows-invoke_service :
      (r : ServiceRef) (toblob : Bool) → Follows p 0 1 (Invoke.invoke_service r toblob)
  unfolding Invoke.invoke_service
  Follows-invoke_service r toblob = search (call_rules, Follows-send_to_service)

  Follows-invoke_entry :
      (rounds : ℕ) (d : Option DirEntry) (payload : File) (sync toblob : Bool)
      (ps : Dict String String)
      → Follows p 0 1 (Invoke.invoke_entry rounds d payload sync toblob ps)
  unfolding Invoke.invoke_entry
  Follows-invoke_entry rounds (some (DirEntry.gate r)) payload sync toblob ps =
      Follows-invoke_gate rounds r payload sync toblob ps
  Follows-invoke_entry rounds (some (DirEntry.service r)) payload sync toblob ps =
      Follows-invoke_service r toblob
  Follows-invoke_entry rounds _ payload sync toblob ps = Follows-pure 0 1 _

  pub Follows-dent_invoke :
      (rounds fd : ℕ) (payload : File) (sync toblob : Bool) (ps : Dict String String)
      → Follows p 0 1 (Invoke.dent_invoke rounds fd payload sync toblob ps)
  unfolding Invoke.dent_invoke
  Follows-dent_invoke rounds fd payload sync toblob ps = Follows-quiet _ _ (Follows-dent fd) λ d.
      Follows-bind 0 0 1 0 _ _ (omega arith) (omega arith) (Follows-invoke_entry rounds d _ _ _ _)
        λ i. Follows-pure 0 0 _
